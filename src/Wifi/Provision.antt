-- ===== src/Wifi/Provision.antt =====
-- internal/wifi/provision.go: the NetworkManager profile of the home network.
pub mod Laws
use teslausb_neo.Base.{
  String, ◌<>◌, Bool, true, false, ◌||◌, ◌&&◌, none, some, [], ◌∷◌, ◌==◌, if◌then◌else◌,
}
use teslausb_neo.Host.{run, read_file, write_file, mkdir_all, chmod, Answer, Host}
use teslausb_neo.Host.Io.{ask}
use teslausb_neo.Host.Fallible.{Done, ok, err, return, ◌>>=◌, ◌>>◌, lift, wrap, try}

-- const systemConnectionsDir, homeConnectionFile
abbrev pub system_connections_dir : String
system_connections_dir = "/etc/NetworkManager/system-connections"

abbrev pub home_connection_file : String
home_connection_file = "teslausb-home.nmconnection"

-- RenderHomeKeyfile
unfoldable pub render_home_keyfile : String → String → Bool → String
render_home_keyfile ssid password hidden =
    "# Generated by teslausb from teslausb.toml [wifi]. Do not edit by hand.\n"
    <> "[connection]\n"
    <> ("id=" <> ssid <> "\n")
    <> "type=wifi\n"
    <> "autoconnect=true\n"
    <> "\n[wifi]\n"
    <> ("ssid=" <> ssid <> "\n")
    <> "mode=infrastructure\n"
    <> (if hidden then "hidden=true\n" else "")
    <> "\n[wifi-security]\n"
    <> "key-mgmt=wpa-psk\n"
    <> ("psk=" <> password <> "\n")
    <> "\n[ipv4]\nmethod=auto\n"
    <> "\n[ipv6]\nmethod=auto\n"

module _ (H : Host) where
  abbrev pub profile_path : String
  profile_path = H.join (system_connections_dir ∷ home_connection_file ∷ [])

  -- `err == nil && string(existing) == desired`
  abbrev pub is_current : Answer → String → Bool
  is_current a desired = elim a.fault [ none ↦ a.text == desired | some _ ↦ false ]

  reload : Done
  reload t =
      let (a, t') = ask H (run "nmcli" ("connection" ∷ "reload" ∷ [])) t in
      (
        elim a.fault [
          | none ↦ ok tt
          | some _ ↦ err ("wifi: nmcli connection reload: " <> H.trim_space a.text)
        ],
        t',
      )

  -- The profile is written again, readable by root alone, and NetworkManager reloads.
  unfoldable pub write_profile : String → Done
  unfolding reload
  write_profile desired = do
    wrap ("wifi: create " <> system_connections_dir) (try H (mkdir_all system_connections_dir))
    wrap ("wifi: write " <> profile_path) (try H (write_file profile_path desired))
    wrap ("wifi: chmod " <> profile_path) (try H (chmod profile_path 384))
    reload

  unfoldable pub ensure_home_connection : String → String → Bool → Done
  unfolding write_profile
  ensure_home_connection ssid password hidden =
      if ssid == "" || password == "" then return tt else do
        let desired = render_home_keyfile ssid password hidden
        existing ← lift (ask H (read_file profile_path))
        if is_current existing desired then return tt else write_profile desired
