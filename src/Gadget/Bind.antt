-- ===== src/Gadget/Bind.antt =====
-- Binding to the USB device controller: `Activate`, `Deactivate`, `Destroy`, `findUDC`.
use teslausb_neo.Base.{
  String, true, false, none, some, List, [], ◌∷◌, map, ◌==◌, if◌then◌else◌, Bool,
}
use teslausb_neo.Host.{lstat, symlink, read_dir, Host}
use teslausb_neo.Host.Io.{ask}
use teslausb_neo.Host.Fallible.{
  ok, err, E, Done, return, fail, ◌>>=◌, ◌>>◌, lift, attempt, ignore, wrap, try,
}
use teslausb_neo.Gadget.Tree.{
  Gadget, gadget_path, under, write, read, udc_path, clear_udc, remove_configfs_tree,
}

module _ (H : Host) where
  -- The first controller that is no dummy, or else the first.
  unfoldable pub pick_udc : String → List String → String
  pick_udc first [] = first
  pick_udc first (name ∷ rest) = elim (H.has_part name "dummy") [
    | true ↦ pick_udc first rest
    | false ↦ name
  ]

  choose_udc : List (String × Bool) → E String
  unfolding pick_udc
  choose_udc [] = fail "no UDC found in /sys/class/udc"
  choose_udc ((first, _) ∷ rest) = return (pick_udc first (first ∷ map (λ e. e.0) rest))

  unfoldable pub find_udc : E String
  unfolding choose_udc
  find_udc = do
    a ← wrap "read /sys/class/udc" (try H (read_dir "/sys/class/udc"))
    choose_udc a.entries

  -- The symlink is made if `Lstat` says that there is none.
  unfoldable pub link_function : String → Done
  link_function gp = do
    let link_path = under H gp ("configs" ∷ "c.1" ∷ "mass_storage.usb0" ∷ [])
    let func_path = under H gp ("functions" ∷ "mass_storage.usb0" ∷ [])
    a ← lift (ask H (lstat link_path))
    elim a.fault [
      | none ↦ return tt
      | some f ↦
          if f.not_exist
          then wrap "symlink function to config" (do try H (symlink func_path link_path); return tt)
          else return tt
    ]

  -- `if cur, _ := readFile(UDC); cur != ""`: the value read, empty if it cannot be read.
  unfoldable pub current_udc : String → E String
  current_udc gp = do
    r ← attempt (read H (udc_path H gp))
    return (elim r [ ok cur ↦ cur | err _ ↦ "" ])

  unfoldable pub write_udc : String → String → Gadget → E Gadget
  write_udc gp udc g = do
    wrap "write UDC" (write H (udc_path H gp) udc)
    return (record g { active = true })

  unfoldable pub bind_udc : String → String → String → Gadget → E Gadget
  unfolding write_udc
  bind_udc gp udc cur g =
      if cur == ""
      then write_udc gp udc g
      else if cur == udc
      then return (record g { active = true })
      else do ignore (clear_udc H gp); write_udc gp udc g

  unfoldable pub activate : Gadget → E Gadget
  unfolding link_function current_udc bind_udc
  activate g = do
    let gp = gadget_path H g
    link_function gp
    udc ← wrap "find UDC" (find_udc)
    cur ← current_udc gp
    bind_udc gp udc cur g

  unfoldable pub deactivate : Gadget → E Gadget
  deactivate g = do
    wrap "clear UDC" (write H (H.join (gadget_path H g ∷ "UDC" ∷ [])) "")
    return (record g { active = false })

  unfoldable pub destroy : Gadget → E Gadget
  destroy g = do
    g' ← if g.active then wrap "deactivate before destroy" (deactivate g) else return g
    remove_configfs_tree H (gadget_path H g')
    return (record g' { luns = [] })
