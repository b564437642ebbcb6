-- ===== src/Tests/Service.antt =====
-- The theorems on the web server, the watchdog of systemd and the process at concrete inputs.
use teslausb_neo.Base.{
  String, ◌≡◌, ◌⊎◌, true, Option, none, some, List, [], ◌∷◌, refl, if◌then◌else◌, ◌==◌,
}
use teslausb_neo.Base.Int.{pos, seconds}
use teslausb_neo.Host.{remove, Host}
use teslausb_neo.Config.Load.{Decoder, load}
use teslausb_neo.Config.Defaults.{default_config}
use teslausb_neo.State.Open.{open_store}
use teslausb_neo.Sdnotify.{watchdog_interval}
use teslausb_neo.Web.Paths.{Within}
use teslausb_neo.Web.Reports.{Server}
use teslausb_neo.Web.Server.{Request, Route, register_routes, serve}
use teslausb_neo.Web.Effects.{Reads, Admitted, serve-Reads}
use teslausb_neo.Gadget.Tree.{configure}
use teslausb_neo.Gadget.Bind.{activate, find_udc}
use teslausb_neo.Daemon.Wiring.{initial}
use teslausb_neo.Daemon.Boot.{boot}
use teslausb_neo.Daemon.Run.{rounds, round}
use teslausb_neo.Daemon.Startup.{End, running, panics, main}
use teslausb_neo.Config.Types.{Config}
use teslausb_neo.Tests.Hosts.{quiet_host, web_host, web_host-Filepath}

-- A process whose service manager wants an answer every five microseconds.
abbrev watched_host : Host
watched_host = record quiet_host { getenv = λ name. if name == "WATCHDOG_USEC" then "5" else "" }

abbrev open_server : Server
open_server = record {
  config = record { archive_dir = "/mnt/snap"; auth_user = "tesla"; auth_pass = "secret" };
  state_db = none;
  last_status = record { state = "booting"; uptime = ""; timestamp = pos 0 };
  start_time = pos 0;
}

abbrev deletion : Request
deletion = record {
  method = "DELETE";
  path = "/api/v1/files";
  name = "a.mp4";
  credentials = some ("tesla", "secret");
}

-- A mux for requests whose path is a pattern.
abbrev exact_mux : List (String × Route) → Request → Option String
exact_mux routes r = if r.method == "DELETE" then some "DELETE /api/v1/files" else none

serve-Reads_example :
    let t' = (serve web_host exact_mux true open_server deletion []).1 in
    Reads web_host "/mnt/snap" "a.mp4" [] t'
    ⊎ Admitted open_server.config deletion.credentials
      × (exact_mux (register_routes true) deletion ≡ some "DELETE /api/v1/files")
      × ((path : String) × Within web_host "/mnt/snap" "a.mp4" path × (t' ≡ remove path ∷ []))
serve-Reads_example =
    serve-Reads web_host web_host-Filepath exact_mux true open_server deletion [] refl

abbrev keep_defaults : Decoder
keep_defaults c text = (c, none)

abbrev empty_payload : String → String → String → String
empty_payload title body kind = "{}"

-- A configuration whose watchdog has no interval: main panics before the first round.
abbrev no_interval : Decoder
no_interval c text = (
  record c {
    wifi = record (c.wifi) {
      home_ssid = "home";
      watchdog = record (c.wifi.watchdog) { enabled = true; interval_seconds = pos 0 };
    };
  },
  none,
)

unticked_panics : (main quiet_host no_interval empty_payload "dev" 5 0 3 []).0 ≡ panics
unfolding main open_store load seconds rounds
unticked_panics = refl

abbrev three_rounds : End
three_rounds = (main quiet_host keep_defaults empty_payload "dev" 5 0 3 []).0

three_rounds_run : three_rounds ≡ running
unfolding main open_store rounds round initial boot configure activate find_udc load default_config
    watchdog_interval
three_rounds_run = refl
