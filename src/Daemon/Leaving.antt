-- ===== src/Daemon/Leaving.antt =====
-- What Run leaves behind when it returns.
use teslausb_neo.Base.{◌≡◌, ◌≢◌, none, some, [], Bool, true, false, ◌∷◌}
use teslausb_neo.Gadget.Tree.{Gadget}
use teslausb_neo.Host.{Call, write_file, History, Host}
use teslausb_neo.Daemon.Machine.{State, waiting_for_wifi, pre_archive, cleanup, StateMachine}

-- The states in which Run waits.
abbrev pub waits : State → Bool
waits waiting_for_wifi = true
waits pre_archive = true
waits cleanup = true
waits _ = false

module _ (H : Host) where
  abbrev pub clear_udc_of : Gadget → Call
  clear_udc_of g = write_file (H.join (H.join (g.root ∷ g.name ∷ []) ∷ "UDC" ∷ [])) ""

  -- What became of the gadget between two machines and the histories before and behind: there was
  -- none; or its UDC file was cleared; or the write of that file failed, and it counts as active
  -- as before.
  pub data Dropped (m n : StateMachine) (t u : History) : Type 0 where
    absent : m.gad ≡ none → n.gad ≡ none → u ≡ t → Dropped m n t u
    cleared :
        (g : Gadget)
        → m.gad ≡ some g
        → u ≡ clear_udc_of g ∷ t
        → (H.answer t (clear_udc_of g)).fault ≡ none
        → n.gad ≡ some (record g { active = false })
        → Dropped m n t u
    faulted :
        (g : Gadget)
        → m.gad ≡ some g
        → u ≡ clear_udc_of g ∷ t
        → (H.answer t (clear_udc_of g)).fault ≢ none
        → n.gad ≡ some g
        → Dropped m n t u
