-- ===== src/Config/Validate.antt =====
-- `Validate`: the warnings, in the order in which the source appends them.
use teslausb_neo.Base.{String, ◌<>◌, Bool, ◌||◌, List, [], ◌∷◌, ◌++◌, ◌==◌, contains, if◌then◌else◌}
use teslausb_neo.Host.{Host}
use teslausb_neo.Config.Types.{Config, WakeConfig, WifiConfig}

-- validArchiveSystems, validWakeMethods
abbrev pub valid_archive_systems : List String
valid_archive_systems = "" ∷ "none" ∷ "cifs" ∷ "rsync" ∷ "rclone" ∷ "nfs" ∷ []

abbrev pub valid_wake_methods : List String
valid_wake_methods = "" ∷ "none" ∷ "ble" ∷ "tessie" ∷ "webhook" ∷ []

abbrev pub warn_if : Bool → String → List String
warn_if test warning = if test then warning ∷ [] else []

unfoldable pub backend_warnings : Config → List String
backend_warnings c =
    if c.archive.system == "cifs"
    then warn_if (c.cifs.server == "" || c.cifs.share == "")
        "archive.system = cifs but [cifs] server/share are not set; archiving will fail"
    else if c.archive.system == "rsync"
    then warn_if (c.rsync.server == "" || c.rsync.user == "")
        "archive.system = rsync but [rsync] server/user are not set; archiving will fail"
    else if c.archive.system == "nfs"
    then warn_if (c.nfs.server == "" || c.nfs.share == "")
        "archive.system = nfs but [nfs] server/share are not set; archiving will fail"
    else if c.archive.system == "rclone"
    then warn_if (c.rclone.path == "")
        "archive.system = rclone but [rclone] path is not set; archiving will fail"
    else []

unfoldable pub keeper_warnings : WakeConfig → List String
keeper_warnings w =
    if w.method == "ble"
    then warn_if (w.ble_vin == "") "wake.method = ble but wake.ble_vin is not set"
    else if w.method == "tessie"
    then warn_if (w.tessie.token == "" || w.tessie.vin == "")
        "wake.method = tessie but [wake.tessie] token/vin are not set"
    else if w.method == "webhook"
    then warn_if (w.webhook_url == "") "wake.method = webhook but wake.webhook_url is not set"
    else []

unfoldable pub wifi_warnings : WifiConfig → List String
wifi_warnings w =
    if w.home_ssid == ""
    then "wifi.home_ssid is not set; the archive cycle will never trigger (it waits for home WiFi)"
      ∷ []
    else warn_if (w.home_password == "")
        "wifi.home_ssid is set but wifi.home_password is empty; relying on a pre-existing NetworkManager profile (e.g. seeded by Raspberry Pi Imager). On the Buildroot image set wifi.home_password so the daemon can create the connection itself"

module _ (H : Host) where
  unfoldable pub system_warnings : String → List String
  system_warnings system =
      if contains valid_archive_systems system
      then []
      else ("archive.system = "
          <> H.quote system
          <> " is not recognized (valid: cifs, rsync, rclone, nfs, none); archiving is disabled")
        ∷ []

  unfoldable pub method_warnings : String → List String
  method_warnings method =
      if contains valid_wake_methods method
      then []
      else ("wake.method = "
          <> H.quote method
          <> " is not recognized (valid: none, ble, tessie, webhook); the car will not be kept awake")
        ∷ []

  unfoldable pub validate : Config → List String
  validate c =
      system_warnings c.archive.system
      ++ (backend_warnings c
          ++ (method_warnings c.wake.method ++ (keeper_warnings c.wake ++ wifi_warnings c.wifi)))
