-- ===== src/Growth/Adds.antt =====
-- Growth of the history: the predicate, and code that is put together.
use teslausb_neo.Base.{String, ◌≤◌, length, arith}
use teslausb_neo.Host.{History}
use teslausb_neo.Host.Io.{M}
use teslausb_neo.Host.Fallible.{Result, ok, err, E, follow, ◌>>=◌, wrap}

pub record Adds {A : Type 0} (m : M A) : Type 0 where
  pub less : (t : History) → length t ≤ length (m t).1

follow-length :
    {A B : Type 0} (r : Result A) (f : A → E B) (t : History)
    → ((a : A) → Adds (f a))
    → length t ≤ length (follow r f t).1
follow-length (ok a) f t h = (h a).less t
follow-length (err m) f t h = omega arith

pub bind-Adds :
    {A B : Type 0} {m : E A} {f : A → E B} → Adds m → ((a : A) → Adds (f a)) → Adds (m >>= f)
bind-Adds {m} {f} h k = record {
  less = λ t. omega (arith, h.less t, follow-length (m t).0 f (m t).1 k);
}

pub wrap-Adds : {A : Type 0} (prefix : String) {m : E A} → Adds m → Adds (wrap prefix m)
wrap-Adds prefix h = record { less = h.less }

-- The same for code that cannot fail.
pub then-Adds :
    {A B : Type 0} {m : M A} {f : A → M B}
    → Adds m
    → ((a : A) → Adds (f a))
    → Adds (λ t. f (m t).0 (m t).1)
then-Adds {m} {f} h k = record { less = λ t. omega (arith, h.less t, (k (m t).0).less (m t).1) }
