-- ===== src/Tests/System.antt =====
-- The theorems on the system around the state machine at concrete inputs.
use teslausb_neo.Base.{String, ◌≡◌, ◌≢◌, ◌⊎◌, true, false, none, some, [], ◌∷◌, refl, arith, eq_iff}
use teslausb_neo.Base.Int.{ℤ, pos, leb_ℤ}
use teslausb_neo.Host.{remove, History}
use teslausb_neo.Host.Io.{M, pure}
use teslausb_neo.Host.Fallible.{ok}
use teslausb_neo.Config.Types.{HealthConfig}
use teslausb_neo.Notify.{noop_notifier}
use teslausb_neo.Wifi.Provision.{render_home_keyfile, write_profile, ensure_home_connection}
use teslausb_neo.Wifi.Provision.Laws.{Provisioned, ensure_home_connection-Provisioned}
use teslausb_neo.Web.{WebConfig, Response, file, unauthorized, handler, handle_delete_file}
use teslausb_neo.Web.Paths.{Within, handle_delete_file-Within, handler-cases}
use teslausb_neo.Health.{Monitor, get_cpu_temp, start}
use teslausb_neo.Health.Interval.{start-cool}
use teslausb_neo.Sys.{reset_zram0, setup_zram, load_zram, swap_on}
use teslausb_neo.Sys.Zram.{SwappedOn, setup_zram-SwappedOn}
use teslausb_neo.Tests.Hosts.{quiet_host, web_host, web_host-Filepath}

provisioned_fine : (ensure_home_connection quiet_host "home" "secret" false []).0 ≡ ok tt
unfolding ensure_home_connection write_profile render_home_keyfile
provisioned_fine = refl

ensure_home_connection-Provisioned_example :
    Provisioned quiet_host "home" "secret"
      (render_home_keyfile "home" "secret" false)
      []
      (ensure_home_connection quiet_host "home" "secret" false []).1
ensure_home_connection-Provisioned_example =
    ensure_home_connection-Provisioned quiet_host "home" "secret" false [] provisioned_fine

abbrev guarded : WebConfig
guarded = record { archive_dir = "/mnt/snap"; auth_user = "tesla"; auth_pass = "secret" }

handle_delete_file-Within_example :
    let t' = (handle_delete_file web_host guarded "a.mp4" []).1 in
    (t' ≡ [])
    ⊎ ((path : String) × Within web_host "/mnt/snap" "a.mp4" path × (t' ≡ remove path ∷ []))
handle_delete_file-Within_example =
    handle_delete_file-Within web_host web_host-Filepath guarded "a.mp4" []

user_set : guarded.auth_user ≢ ""
user_set h = let e : false ≡ true = (eq_iff "tesla" "").1 h in ground (arith, e)

pass_set : guarded.auth_pass ≢ ""
pass_set h = let e : false ≡ true = (eq_iff "secret" "").1 h in ground (arith, e)

abbrev served : M Response
served = pure (file "/mnt/snap/a.mp4")

handler-cases_example :
    (("tesla" ≡ guarded.auth_user)
        × ("guess" ≡ guarded.auth_pass)
        × (handler guarded (some ("tesla", "guess")) served [] ≡ served [])
      ⊎ (("tesla" ≢ guarded.auth_user) ⊎ ("guess" ≢ guarded.auth_pass))
        × (handler guarded (some ("tesla", "guess")) served [] ≡ (unauthorized, [])))
    × (handler guarded none served [] ≡ (unauthorized, []))
handler-cases_example = handler-cases guarded "tesla" "guess" served [] user_set pass_set

abbrev limits : HealthConfig
limits = record {
  temp_warning_mc = pos 80000;
  temp_caution_mc = pos 70000;
  interval_seconds = pos 0;
}

abbrev silent : Monitor
silent = record { cfg = limits; notifier = none; interval = pos 60 }

abbrev loud : Monitor
loud = record { cfg = limits; notifier = some noop_notifier; interval = pos 60 }

always_cool :
    (u : History) (n : ℤ) → (get_cpu_temp quiet_host u).0 ≡ ok n → leb_ℤ (pos 80000) n ≡ false
unfolding get_cpu_temp
always_cool u n h = ground (arith, h)

start-cool_example : start quiet_host 3 loud [] ≡ start quiet_host 3 silent []
start-cool_example = start-cool quiet_host loud silent refl refl always_cool 3 []

swap_fine : (setup_zram quiet_host (pos 256) []).0 ≡ ok tt
unfolding setup_zram load_zram swap_on reset_zram0
swap_fine = refl

setup_zram-SwappedOn_example :
    (u : History) × SwappedOn quiet_host
      (pos 256)
      (reset_zram0 quiet_host u).1
      (setup_zram quiet_host (pos 256) []).1
setup_zram-SwappedOn_example = setup_zram-SwappedOn quiet_host (pos 256) [] swap_fine
