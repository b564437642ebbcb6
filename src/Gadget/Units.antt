-- ===== src/Gadget/Units.antt =====
-- Logical units: `AddLUN`, `SetNofua`, and the two loops of `boot` over them.
use teslausb_neo.Base.{
  ℕ, zero, suc, String, ◌<>◌, Bool, false, List, [], ◌∷◌, ◌++◌, length, leb, if◌then◌else◌,
}
use teslausb_neo.Base.Int.{ℤ, pos, negsuc}
use teslausb_neo.Host.{mkdir_all, Host}
use teslausb_neo.Host.Fallible.{E, Done, return, fail, ◌>>◌, wrap, try}
use teslausb_neo.Gadget.Tree.{Lun, Gadget, gadget_path, write}

-- `luns[i].Nofua = enabled`
unfoldable pub set_nofua_at : List Lun → ℕ → Bool → List Lun
set_nofua_at [] i enabled = []
set_nofua_at (l ∷ ls) zero enabled = record l { nofua = enabled } ∷ ls
set_nofua_at (l ∷ ls) (suc i) enabled = l ∷ set_nofua_at ls i enabled

module _ (H : Host) where
  unfoldable pub lun_dir : Gadget → ℕ → String
  lun_dir g i =
      H.join (gadget_path H g ∷ "functions" ∷ "mass_storage.usb0" ∷ ("lun." <> H.itoa (pos i)) ∷ [])

  abbrev attribute : Gadget → ℕ → String → String → Done
  attribute g i name value = write H (H.join (lun_dir g i ∷ name ∷ [])) value

  unfoldable pub add_lun : String → String → Gadget → E Gadget
  add_lun device inquiry_string g = do
    let i = length g.luns
    wrap ("create lun." <> H.itoa (pos i) <> " dir") (do try H (mkdir_all (lun_dir g i)); return tt)
    wrap "write lun file" (attribute g i "file" device)
    wrap "write inquiry_string" (attribute g i "inquiry_string" inquiry_string)
    wrap "write removable" (attribute g i "removable" "1")
    wrap "write ro" (attribute g i "ro" "0")
    wrap "write nofua" (attribute g i "nofua" "0")
    let lun : Lun = record { device = device; inquiry_string = inquiry_string; nofua = false }
    return (record g { luns = g.luns ++ (lun ∷ []) })

  out_of_range : ℤ → Gadget → String
  out_of_range lun g =
      "lun index "
      <> H.itoa lun
      <> " out of range (have "
      <> H.itoa (pos (length g.luns))
      <> " LUNs)"

  -- The write of SetNofua at an index that has passed the check.
  write_nofua : ℕ → Bool → Gadget → E Gadget
  write_nofua i enabled g = do
    wrap ("set nofua on lun." <> H.itoa (pos i))
        (attribute g i "nofua" (if enabled then "1" else "0"))
    return (record g { luns = set_nofua_at g.luns i enabled })

  unfoldable pub set_nofua : ℤ → Bool → Gadget → E Gadget
  unfolding out_of_range write_nofua
  set_nofua (negsuc n) enabled g = fail (out_of_range (negsuc n) g)
  set_nofua (pos i) enabled g =
      if leb (length g.luns) i then fail (out_of_range (pos i) g) else write_nofua i enabled g
