-- ===== src/Gadget/Tree.antt =====
-- The configfs tree of the gadget: `New`, `Configure` and what removes a stale tree.
use teslausb_neo.Base.{String, ◌<>◌, Bool, false, List, [], ◌∷◌, ◌==◌, if◌then◌else◌}
use teslausb_neo.Host.{write_file, read_file, stat, mkdir_all, remove, glob, Host}
use teslausb_neo.Host.Fallible.{ok, err, E, Done, return, ◌>>=◌, ◌>>◌, attempt, ignore, wrap, try}

pub record Lun : Type 0 where
  pub device : String
  pub inquiry_string : String
  pub nofua : Bool

pub record Gadget : Type 0 where
  pub root : String
  pub name : String
  pub luns : List Lun
  pub active : Bool

unfoldable pub new : String → Gadget
new name = record { root = "/sys/kernel/config/usb_gadget"; name = name; luns = []; active = false }

module _ (H : Host) where
  unfoldable pub gadget_path : Gadget → String
  gadget_path g = H.join (g.root ∷ g.name ∷ [])

  abbrev pub under : String → List String → String
  under gp rest = H.join (gp ∷ rest)

  -- writeFile
  abbrev pub write : String → String → Done
  write path value = do try H (write_file path value); return tt

  abbrev pub make : String → Done
  make path = do try H (mkdir_all path); return tt

  -- readFile, trimmed
  abbrev pub read : String → E String
  read path = do a ← try H (read_file path); return (H.trim_space a.text)

  abbrev pub udc_path : String → String
  udc_path gp = under gp ("UDC" ∷ [])

  unfoldable pub clear_udc : String → Done
  clear_udc gp = do
    cur ← attempt (read (udc_path gp))
    elim cur [
      | err _ ↦ return tt
      | ok bound ↦ if bound == "" then return tt else write (udc_path gp) ""
    ]

  -- `for _, p := range paths { _ = os.Remove(p) }`
  unfoldable pub remove_each : List String → Done
  remove_each [] = return tt
  remove_each (p ∷ ps) = do ignore (try H (remove p)); remove_each ps

  unfoldable pub remove_matches : String → Done
  unfolding remove_each
  remove_matches pattern = do
    found ← attempt (try H (glob pattern))
    elim found [ err _ ↦ return tt | ok a ↦ remove_each a.names ]

  unfoldable pub dirs_to_remove : String → List String
  dirs_to_remove gp =
      under gp ("functions" ∷ "mass_storage.usb0" ∷ [])
      ∷ under gp ("functions" ∷ [])
      ∷ under gp ("configs" ∷ "c.1" ∷ "strings" ∷ "0x409" ∷ [])
      ∷ under gp ("configs" ∷ "c.1" ∷ "strings" ∷ [])
      ∷ under gp ("configs" ∷ "c.1" ∷ [])
      ∷ under gp ("configs" ∷ [])
      ∷ under gp ("strings" ∷ "0x409" ∷ [])
      ∷ under gp ("strings" ∷ [])
      ∷ gp
      ∷ []

  unfoldable pub remove_configfs_tree : String → Done
  unfolding remove_matches remove_each dirs_to_remove
  remove_configfs_tree gp = do
    remove_matches (under gp ("configs" ∷ "c.1" ∷ "*.usb0" ∷ []))
    remove_matches (under gp ("functions" ∷ "mass_storage.usb0" ∷ "lun.*" ∷ []))
    remove_each (dirs_to_remove gp)

  unfoldable pub teardown_existing : Gadget → Done
  unfolding gadget_path clear_udc remove_configfs_tree
  teardown_existing g = do
    let gp = gadget_path g
    found ← attempt (try H (stat gp))
    elim found [ err _ ↦ return tt | ok _ ↦ do ignore (clear_udc gp); remove_configfs_tree gp ]

  -- A Go map is walked in any order; this is the order of the source text.
  unfoldable pub write_each : String → String → List (String × String) → Done
  write_each at what [] = return tt
  write_each at what ((name, value) ∷ rest) = do
    wrap (what <> name) (write (H.join (at ∷ name ∷ [])) value)
    write_each at what rest

  abbrev pub descriptors : List (String × String)
  descriptors =
      ("idVendor", "0x1d6b")
      ∷ ("idProduct", "0x0104")
      ∷ ("bcdUSB", "0x0200")
      ∷ ("bcdDevice", "0x0100")
      ∷ []

  abbrev pub strings_map : List (String × String)
  strings_map =
      ("manufacturer", "Tesla") ∷ ("product", "USB Drive") ∷ ("serialnumber", "000000000001") ∷ []

  -- The descriptors and the strings of the device.
  unfoldable pub configure_device : String → Done
  unfolding write_each
  configure_device gp = do
    wrap "create gadget dir" (make gp)
    write_each gp "write " descriptors
    let strings_dir = under gp ("strings" ∷ "0x409" ∷ [])
    wrap "create strings dir" (make strings_dir)
    write_each strings_dir "write string " strings_map

  -- The configuration, and its function.
  unfoldable pub configure_functions : String → Done
  configure_functions gp = do
    let config_dir = under gp ("configs" ∷ "c.1" ∷ [])
    wrap "create config dir" (make (H.join (config_dir ∷ "strings" ∷ "0x409" ∷ [])))
    wrap "write MaxPower" (write (H.join (config_dir ∷ "MaxPower" ∷ [])) "250")
    wrap "write configuration string"
        (write (H.join (config_dir ∷ "strings" ∷ "0x409" ∷ "configuration" ∷ [])) "TeslaUSB")
    let func_dir = under gp ("functions" ∷ "mass_storage.usb0" ∷ [])
    wrap "create function dir" (make func_dir)
    wrap "write stall" (write (H.join (func_dir ∷ "stall" ∷ [])) "1")

  unfoldable pub configure : Gadget → Done
  unfolding gadget_path teardown_existing configure_device configure_functions
  configure g = do
    teardown_existing g
    configure_device (gadget_path g)
    configure_functions (gadget_path g)
