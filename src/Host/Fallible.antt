-- ===== src/Host/Fallible.antt =====
-- Code that returns an `error`: a value or a message, with the chain `if err != nil { return }`.
use teslausb_neo.Base.{String, ◌<>◌, Bool, true, false, none, some, ◌∷◌, ◌≡◌, refl, arith}
use teslausb_neo.Host.Defs.{Call, Answer, History, Host}
use teslausb_neo.Host.Io.{M}

pub data Result (A : Type 0) : Type 0 where
  ok : A → Result A
  err : String → Result A

abbrev pub E : Type 0 → Type 0
E A = M (Result A)

abbrev pub Done : Type 0
Done = E (Unit {0})

abbrev pub return : {A : Type 0} → A → E A
return a t = (ok a, t)

abbrev pub fail : {A : Type 0} → String → E A
fail m t = (err m, t)

abbrev pub follow : {A B : Type 0} → Result A → (A → E B) → E B
follow (ok a) f t = f a t
follow (err m) f t = (err m, t)

infixl 5 ◌>>=◌ ◌>>◌
abbrev pub ◌>>=◌ : {A B : Type 0} → E A → (A → E B) → E B
◌>>=◌ m f t = follow (m t).0 f (m t).1

abbrev pub ◌>>◌ : {A B : Type 0} → E A → E B → E B
m >> k = m >>= λ _. k

-- Code that cannot fail, among code that can.
abbrev pub lift : {A : Type 0} → M A → E A
lift m t = (ok (m t).0, (m t).1)

-- `err` handled where it stands.
abbrev pub attempt : {A : Type 0} → E A → E (Result A)
attempt m = lift m

-- `_ = f()`
abbrev pub ignore : {A : Type 0} → E A → Done
ignore m t = (ok tt, (m t).1)

-- `defer`: the cleanup runs after the body, whatever it returned.
abbrev pub finally : {A : Type 0} → E A → M (Unit {0}) → E A
finally m cleanup t = ((m t).0, (cleanup (m t).1).1)

-- fmt.Errorf("prefix: %w", err)
abbrev pub wrapped : {A : Type 0} → String → Result A → Result A
wrapped prefix (ok a) = ok a
wrapped prefix (err m) = err (prefix <> ": " <> m)

abbrev pub wrap : {A : Type 0} → String → E A → E A
wrap prefix m t = (wrapped prefix (m t).0, (m t).1)

-- The answer of a call, or the message of its fault.
abbrev pub answered : Answer → Result Answer
answered a = elim a.fault [ none ↦ ok a | some f ↦ err f.message ]

abbrev pub try : Host → Call → E Answer
try H c t = (answered (H.answer t c), c ∷ t)

abbrev pub is_ok : {A : Type 0} → Result A → Bool
is_ok (ok a) = true
is_ok (err m) = false

follow-ok :
    {A B : Type 0} (r : Result A) (f : A → E B) (t : History) (b : B)
    → (follow r f t).0 ≡ ok b
    → (a : A) × (r ≡ ok a) × ((f a t).0 ≡ ok b) × ((follow r f t).1 ≡ (f a t).1)
follow-ok (ok a) f t b h = (a, refl, h, refl)
follow-ok (err m) f t b h = absurd (ground arith)

-- A chain that succeeds did so at both ends.
pub bind-ok :
    {A B : Type 0} (m : E A) (f : A → E B) (t : History) (b : B)
    → ((m >>= f) t).0 ≡ ok b
    → (a : A) × ((m t).0 ≡ ok a) × ((f a (m t).1).0 ≡ ok b) × (((m >>= f) t).1 ≡ (f a (m t).1).1)
bind-ok m f t b h = follow-ok (m t).0 f (m t).1 b h

pub wrapped-ok :
    {A : Type 0} (prefix : String) (r : Result A) (a : A) → wrapped prefix r ≡ ok a → r ≡ ok a
wrapped-ok prefix (ok b) a h = h
wrapped-ok prefix (err m) a h = absurd (ground arith)
