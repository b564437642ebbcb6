-- ===== src/Wifi/Provision/Laws.antt =====
-- What a successful EnsureHomeConnection has done.
use teslausb_neo.Base.{String, ◌≡◌, Bool, true, ◌||◌, none, [], ◌∷◌, ◌==◌, arith}
use teslausb_neo.Host.{Call, run, read_file, write_file, mkdir_all, chmod, History, Host}
use teslausb_neo.Host.Fallible.{ok}
use teslausb_neo.Wifi.Provision.{
  system_connections_dir, profile_path, is_current, render_home_keyfile, ensure_home_connection,
}

module _ (H : Host) where
  -- The calls that write the profile, and the history when its directory exists.
  abbrev pub write : String → Call
  write desired = write_file (profile_path H) desired

  abbrev pub protect : Call
  protect = chmod (profile_path H) 384

  abbrev pub load : Call
  load = run "nmcli" ("connection" ∷ "reload" ∷ [])

  abbrev pub ready : History → History
  ready t = mkdir_all system_connections_dir ∷ read_file (profile_path H) ∷ t

  -- How a provisioning that succeeds can have gone: nothing was to be done; the profile on disk
  -- was the desired one; or it was written, made readable by root alone, and then loaded, each
  -- without a fault.
  pub data Provisioned (ssid password desired : String) (t : History) : History → Type 0 where
    not_wanted : (ssid == "" || password == "") ≡ true → Provisioned ssid password desired t t
    up_to_date :
        is_current H (H.answer t (read_file (profile_path H))) desired ≡ true
        → Provisioned ssid password desired t (read_file (profile_path H) ∷ t)
    written :
        (H.answer (ready t) (write desired)).fault ≡ none
        → (H.answer (write desired ∷ ready t) protect).fault ≡ none
        → (H.answer (protect ∷ write desired ∷ ready t) load).fault ≡ none
        → Provisioned ssid password desired t (load ∷ protect ∷ write desired ∷ ready t)

  -- EnsureHomeConnection succeeds only if nothing was to be done, or the profile on disk was the
  -- desired one, or it was written, protected and loaded, in this order and without a fault.
  pub ensure_home_connection-Provisioned :
      (ssid password : String) (hidden : Bool) (t : History)
      → (ensure_home_connection H ssid password hidden t).0 ≡ ok tt
      → Provisioned ssid password
          (render_home_keyfile ssid password hidden)
          t
          (ensure_home_connection H ssid password hidden t).1
  unfolding ensure_home_connection
  ensure_home_connection-Provisioned ssid password hidden t h =
      grind (arith, not_wanted, up_to_date, written)
