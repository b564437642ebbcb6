-- ===== src/Config/Types.antt =====
-- The configuration as the TOML decoder fills it in. Go's `int` and `int64` are ℤ.
use teslausb_neo.Base.{String, Bool}
use teslausb_neo.Base.Int.{ℤ}

pub record ArchiveConfig : Type 0 where
  pub system : String
  pub delay_seconds : ℤ
  pub saved_clips : Bool
  pub sentry_clips : Bool
  pub recent_clips : Bool
  pub track_mode_clips : Bool
  pub sync_music : Bool
  pub sync_light_show : Bool
  pub sync_boombox : Bool
  pub free_space_reserve_mb : ℤ
  pub archive_logs : Bool

pub record CifsConfig : Type 0 where
  pub server : String
  pub share : String
  pub user : String
  pub password : String
  pub path : String

pub record RsyncConfig : Type 0 where
  pub server : String
  pub user : String
  pub password : String
  pub path : String

pub record RcloneConfig : Type 0 where
  pub path : String

pub record NfsConfig : Type 0 where
  pub server : String
  pub share : String
  pub path : String

pub record ApConfig : Type 0 where
  pub enabled : Bool
  pub ssid : String
  pub password : String

pub record WatchdogConfig : Type 0 where
  pub enabled : Bool
  pub interval_seconds : ℤ
  pub max_failures : ℤ

pub record WifiConfig : Type 0 where
  pub home_ssid : String
  pub home_password : String
  pub hidden : Bool
  pub ap : ApConfig
  pub watchdog : WatchdogConfig

pub record NtfyConfig : Type 0 where
  pub url : String
  pub topic : String

pub record AppriseConfig : Type 0 where
  pub url : String

pub record NotifyConfig : Type 0 where
  pub ntfy : NtfyConfig
  pub apprise : AppriseConfig

pub record TessieConfig : Type 0 where
  pub token : String
  pub vin : String

pub record WakeConfig : Type 0 where
  pub method : String
  pub ble_vin : String
  pub tessie : TessieConfig
  pub webhook_url : String

pub record HealthConfig : Type 0 where
  pub temp_warning_mc : ℤ
  pub temp_caution_mc : ℤ
  pub interval_seconds : ℤ

pub record IdleConfig : Type 0 where
  pub write_threshold_bytes : ℤ
  pub timeout_seconds : ℤ

pub record TuningConfig : Type 0 where
  pub dirty_ratio : ℤ
  pub dirty_background_bytes : ℤ
  pub dirty_writeback_centisecs : ℤ
  pub cpu_governor : String
  pub cpu_governor_archiving : String

pub record WebConfig : Type 0 where
  pub username : String
  pub password : String

pub record Config : Type 0 where
  pub archive : ArchiveConfig
  pub cifs : CifsConfig
  pub rsync : RsyncConfig
  pub rclone : RcloneConfig
  pub nfs : NfsConfig
  pub wifi : WifiConfig
  pub notify : NotifyConfig
  pub wake : WakeConfig
  pub health : HealthConfig
  pub idle : IdleConfig
  pub tuning : TuningConfig
  pub web : WebConfig
