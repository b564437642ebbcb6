-- ===== src/Wifi/Manager.antt =====
-- wifi.go: what `Manager` asks nmcli. The type has no fields.
pub mod Laws
use teslausb_neo.Base.{
  String, ◌<>◌, Bool, false, ◌||◌, Option, none, some, List, [], ◌∷◌, ◌==◌, starts_with, contains,
  if◌then◌else◌, true,
}
use teslausb_neo.Host.{run, Answer, Host}
use teslausb_neo.Host.Io.{M, pure, ask, ◌>>=◌, ◌>>◌}
use teslausb_neo.Host.Fallible.{ok, err, Done}

pub record Network : Type 0 where
  pub ssid : String
  pub signal : String
  pub security : String

module _ (H : Host) where
  abbrev pub nmcli : List String → M Answer
  nmcli args = ask H (run "nmcli" args)

  some_connected : List String → Bool
  some_connected [] = false
  some_connected (line ∷ rest) = H.has_part line "wifi:connected" || some_connected rest

  unfoldable pub is_connected : M Bool
  unfolding some_connected
  is_connected = do
    a ← nmcli ("-t" ∷ "-f" ∷ "TYPE,STATE" ∷ "device" ∷ [])
    pure (elim a.fault [ none ↦ some_connected (H.lines a.text) | some _ ↦ false ])

  active_ssid : List String → String
  active_ssid [] = ""
  active_ssid (line ∷ rest) =
      if starts_with line "yes:" then H.trim_prefix line "yes:" else active_ssid rest

  unfoldable pub get_ssid : M String
  unfolding active_ssid
  get_ssid = do
    a ← nmcli ("-t" ∷ "-f" ∷ "active,ssid" ∷ "dev" ∷ "wifi" ∷ [])
    pure (elim a.fault [ none ↦ active_ssid (H.lines a.text) | some _ ↦ "" ])

  unfoldable pub is_home_network : String → M Bool
  unfolding get_ssid
  is_home_network ssid = do current ← get_ssid; pure (current == ssid)

  unfoldable pub connect_to_home : String → Done
  connect_to_home ssid = do
    a ← nmcli ("connection" ∷ "up" ∷ ssid ∷ [])
    pure (elim a.fault [
      | none ↦ ok tt
      | some _ ↦ err ("wifi: connect " <> ssid <> ": " <> H.trim_space a.text)
    ])

  -- The connection of an earlier access point is deleted first, if there is one.
  unfoldable pub start_ap : String → String → Done
  start_ap ssid password = do
    nmcli ("connection" ∷ "delete" ∷ "teslausb-ap" ∷ [])
    a ← nmcli (
        "device" ∷ "wifi" ∷ "hotspot" ∷ "ifname" ∷ "wlan0" ∷ "con-name" ∷ "teslausb-ap" ∷ "ssid"
        ∷ ssid ∷ "password" ∷ password ∷ [])
    pure (elim a.fault [ none ↦ ok tt | some _ ↦ err ("wifi: start AP: " <> H.trim_space a.text) ])

  unfoldable pub stop_ap : Done
  stop_ap = do
    a ← nmcli ("connection" ∷ "down" ∷ "teslausb-ap" ∷ [])
    pure (elim a.fault [ none ↦ ok tt | some _ ↦ err ("wifi: stop AP: " <> H.trim_space a.text) ])

  -- One line of a scan, by the parts of SplitN(line, ":", 3).
  unfoldable pub network_of : List String → Option Network
  network_of (ssid ∷ signal ∷ security ∷ _) =
      if ssid == ""
      then none
      else some (record { ssid = ssid; signal = signal; security = security })
  network_of _ = none

  -- The loop of ScanNetworks; `seen` holds the names met so far.
  unfoldable pub networks_from : List String → List String → List Network
  unfolding network_of
  networks_from seen [] = []
  networks_from seen (line ∷ rest) = elim (network_of (H.split_n3 line)) [
    | none ↦ networks_from seen rest
    | some n ↦ elim (contains seen n.ssid) [
      | true ↦ networks_from seen rest
      | false ↦ n ∷ networks_from (n.ssid ∷ seen) rest
    ]
  ]

  unfoldable pub scan_networks : M (List Network)
  unfolding networks_from
  scan_networks = do
    nmcli ("device" ∷ "wifi" ∷ "rescan" ∷ [])
    a ← nmcli ("-t" ∷ "-f" ∷ "SSID,SIGNAL,SECURITY" ∷ "dev" ∷ "wifi" ∷ "list" ∷ [])
    pure (elim a.fault [ none ↦ networks_from [] (H.lines (H.trim_space a.text)) | some _ ↦ [] ])

  has_ssid : String → List Network → Bool
  has_ssid ssid [] = false
  has_ssid ssid (n ∷ ns) = n.ssid == ssid || has_ssid ssid ns

  unfoldable pub is_ssid_visible : String → M Bool
  unfolding has_ssid scan_networks
  is_ssid_visible ssid = do ns ← scan_networks; pure (has_ssid ssid ns)
