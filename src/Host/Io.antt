-- ===== src/Host/Io.antt =====
-- Code that cannot fail: from the history before it to a result and the history after it.
use teslausb_neo.Base.{◌∷◌}
use teslausb_neo.Host.Defs.{Call, Answer, History, Host}

abbrev pub M : Type 0 → Type 0
M A = History → A × History

abbrev pub pure : {A : Type 0} → A → M A
pure a t = (a, t)

infixl 5 ◌>>=◌ ◌>>◌
abbrev pub ◌>>=◌ : {A B : Type 0} → M A → (A → M B) → M B
◌>>=◌ m f t = f (m t).0 (m t).1

abbrev pub ◌>>◌ : {A B : Type 0} → M A → M B → M B
◌>>◌ m k t = k (m t).1

abbrev pub ask : Host → Call → M Answer
ask H c t = (H.answer t c, c ∷ t)
