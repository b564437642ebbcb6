-- ===== src/Config/Defaults.antt =====
-- `DefaultConfig`. Fields that the source leaves out have Go's zero value.
use teslausb_neo.Base.{true, false}
use teslausb_neo.Base.Int.{pos}
use teslausb_neo.Config.Types.{Config}

unfoldable pub default_config : Config
default_config = record {
  archive = record {
    system = "cifs";
    delay_seconds = pos 60;
    saved_clips = true;
    sentry_clips = true;
    recent_clips = false;
    track_mode_clips = false;
    sync_music = false;
    sync_light_show = false;
    sync_boombox = false;
    free_space_reserve_mb = pos 10240;
    archive_logs = false;
  };
  cifs = record { server = ""; share = ""; user = ""; password = ""; path = "TeslaCam" };
  rsync = record { server = ""; user = ""; password = ""; path = "TeslaCam" };
  rclone = record { path = "TeslaCam" };
  nfs = record { server = ""; share = ""; path = "TeslaCam" };
  wifi = record {
    home_ssid = "";
    home_password = "";
    hidden = false;
    ap = record { enabled = false; ssid = "teslausb"; password = "teslausb" };
    watchdog = record { enabled = true; interval_seconds = pos 60; max_failures = pos 5 };
  };
  notify = record { ntfy = record { url = ""; topic = "" }; apprise = record { url = "" } };
  wake = record {
    method = "none";
    ble_vin = "";
    tessie = record { token = ""; vin = "" };
    webhook_url = "";
  };
  health = record {
    temp_warning_mc = pos 80000;
    temp_caution_mc = pos 70000;
    interval_seconds = pos 60;
  };
  idle = record { write_threshold_bytes = pos 1024; timeout_seconds = pos 300 };
  tuning = record {
    dirty_ratio = pos 10;
    dirty_background_bytes = pos 65536;
    dirty_writeback_centisecs = pos 25;
    cpu_governor = "conservative";
    cpu_governor_archiving = "ondemand";
  };
  web = record { username = ""; password = "" };
}
