-- ===== src/Notify/Laws.antt =====
-- Whom a combined notifier reaches, and when it reports an error.
use teslausb_neo.Base.{String, ◌≡◌, ◌↔◌, Bool, true, Option, none, some, List, [], ◌∷◌, arith, All}
use teslausb_neo.Host.{History}
use teslausb_neo.Host.Fallible.{ok, is_ok}
use teslausb_neo.Notify.{Notifier, send_all, valid, new_multi}

-- Every notifier of the list that is not nil sends once, each behind the one before; the list of
-- Booleans says which of them succeeded, and the histories are those before and behind them all.
pub data Deliveries (title message event : String)
    : List (Option Notifier) → History → List Bool → History → Type 0 where
  nobody : {t : History} → Deliveries title message event [] t [] t
  skipped :
      {ns : List (Option Notifier)} {t t' : History} {oks : List Bool}
      → Deliveries title message event ns t oks t'
      → Deliveries title message event (none ∷ ns) t oks t'
  delivered :
      {n : Notifier} {ns : List (Option Notifier)} {t t' : History} {oks : List Bool}
      → Deliveries title message event ns (n.send title message event t).1 oks t'
      → Deliveries title message event
          (some n ∷ ns)
          t
          (is_ok (n.send title message event t).0 ∷ oks)
          t'

abbrev pub AllTrue : List Bool → Type 0
AllTrue = All (λ b. b ≡ true)

module _ (title message event : String) where
  -- Which of them succeed.
  abbrev outcomes : List Notifier → History → List Bool
  outcomes [] t = []
  outcomes (n ∷ ns) t =
      is_ok (n.send title message event t).0 ∷ outcomes ns (n.send title message event t).1

  send_all-Deliveries :
      (ns : List (Option Notifier)) (t : History)
      → Deliveries title message event ns t
          (outcomes (valid ns) t)
          (send_all (valid ns) title message event t).1
  unfolding send_all valid
  send_all-Deliveries [] t = nobody
  send_all-Deliveries (none ∷ ns) t = skipped (send_all-Deliveries ns t)
  send_all-Deliveries (some n ∷ ns) t =
      delivered (send_all-Deliveries ns (n.send title message event t).1)

  send_all-nil :
      (ns : List Notifier) (t : History)
      → ((send_all ns title message event t).0 ≡ []) ↔ AllTrue (outcomes ns t)
  unfolding send_all
  send_all-nil [] t = ground arith
  send_all-nil (n ∷ ns) t = ground (arith, send_all-nil ns (n.send title message event t).1)

  -- A combined notifier asks each entry of the list given to NewMulti that is not nil, in order and
  -- whatever the others return, and returns nil just if all of them did.
  pub new_multi-Deliveries :
      (ns : List (Option Notifier)) (t : History)
      → (oks : List Bool) × Deliveries title message event ns t oks
          ((new_multi ns).send title message event t).1
        × ((((new_multi ns).send title message event t).0 ≡ ok tt) ↔ AllTrue oks)
  unfolding new_multi
  new_multi-Deliveries ns t =
      (outcomes (valid ns) t, send_all-Deliveries ns t, ground (arith, send_all-nil (valid ns) t))
