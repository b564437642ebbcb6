-- ===== src/Config/Laws.antt =====
-- What an empty list of warnings means.
use teslausb_neo.Base.{String, ◌≡◌, ◌≢◌, ◌↔◌, refl, List, [], ◌∷◌, ◌++◌, eq_iff, arith}
use teslausb_neo.Host.{Host}
use teslausb_neo.Config.Types.{Config, WakeConfig, WifiConfig}
use teslausb_neo.Config.Validate.{
  backend_warnings, keeper_warnings, wifi_warnings, system_warnings, method_warnings, validate,
}

-- Archiving has no system, is switched off, or is set to a known system with all that it needs.
pub data BackendReady (c : Config) : Type 0 where
  not_set : c.archive.system ≡ "" → BackendReady c
  switched_off : c.archive.system ≡ "none" → BackendReady c
  cifs : c.archive.system ≡ "cifs" → c.cifs.server ≢ "" → c.cifs.share ≢ "" → BackendReady c
  rsync : c.archive.system ≡ "rsync" → c.rsync.server ≢ "" → c.rsync.user ≢ "" → BackendReady c
  nfs : c.archive.system ≡ "nfs" → c.nfs.server ≢ "" → c.nfs.share ≢ "" → BackendReady c
  rclone : c.archive.system ≡ "rclone" → c.rclone.path ≢ "" → BackendReady c

pub data KeeperReady (w : WakeConfig) : Type 0 where
  not_set : w.method ≡ "" → KeeperReady w
  switched_off : w.method ≡ "none" → KeeperReady w
  ble : w.method ≡ "ble" → w.ble_vin ≢ "" → KeeperReady w
  tessie : w.method ≡ "tessie" → w.tessie.token ≢ "" → w.tessie.vin ≢ "" → KeeperReady w
  webhook : w.method ≡ "webhook" → w.webhook_url ≢ "" → KeeperReady w

pub record IsReady (c : Config) : Type 0 where
  pub backend : BackendReady c
  pub keeper : KeeperReady c.wake
  pub ssid : c.wifi.home_ssid ≢ ""
  pub password : c.wifi.home_password ≢ ""

append-eq-nil : (xs ys : List String) → xs ++ ys ≡ [] → (xs ≡ []) × (ys ≡ [])
append-eq-nil [] ys h = (refl, h)
append-eq-nil (x ∷ xs) ys h = absurd (ground arith)

wifi_ready :
    (w : WifiConfig) → (wifi_warnings w ≡ []) ↔ ((w.home_ssid ≢ "") × (w.home_password ≢ ""))
unfolding wifi_warnings
wifi_ready w = ground (arith, eq_iff w.home_ssid "", eq_iff w.home_password "")

module _ (H : Host) where
  keeper_ready :
      (w : WakeConfig) → method_warnings H w.method ≡ [] → keeper_warnings w ≡ [] → KeeperReady w
  unfolding method_warnings keeper_warnings
  keeper_ready w h k =
      grind (arith, eq_iff, KeeperReady.not_set, KeeperReady.switched_off, ble, tessie, webhook)

  ready_keeper :
      (w : WakeConfig)
      → KeeperReady w
      → (method_warnings H w.method ≡ []) × (keeper_warnings w ≡ [])
  unfolding method_warnings keeper_warnings
  ready_keeper w (KeeperReady.not_set e) = rw e (refl, refl)
  ready_keeper w (KeeperReady.switched_off e) = rw e (refl, refl)
  ready_keeper w (ble e v) = rw e ground (arith, eq_iff w.ble_vin "")
  ready_keeper w (tessie e v p) =
      rw e ground (arith, eq_iff w.tessie.token "", eq_iff w.tessie.vin "")
  ready_keeper w (webhook e v) = rw e ground (arith, eq_iff w.webhook_url "")

  backend_ready :
      (c : Config)
      → system_warnings H c.archive.system ≡ []
      → backend_warnings c ≡ []
      → BackendReady c
  unfolding system_warnings backend_warnings
  backend_ready c h k =
      grind
        (arith, eq_iff, BackendReady.not_set, BackendReady.switched_off, cifs, rsync, nfs, rclone)

  ready_backend :
      (c : Config)
      → BackendReady c
      → (system_warnings H c.archive.system ≡ []) × (backend_warnings c ≡ [])
  unfolding system_warnings backend_warnings
  ready_backend c (BackendReady.not_set e) = rw e (refl, refl)
  ready_backend c (BackendReady.switched_off e) = rw e (refl, refl)
  ready_backend c (cifs e v p) =
      rw e ground (arith, eq_iff c.cifs.server "", eq_iff c.cifs.share "")
  ready_backend c (rsync e v p) =
      rw e ground (arith, eq_iff c.rsync.server "", eq_iff c.rsync.user "")
  ready_backend c (nfs e v p) = rw e ground (arith, eq_iff c.nfs.server "", eq_iff c.nfs.share "")
  ready_backend c (rclone e v) = rw e ground (arith, eq_iff c.rclone.path "")

  warned-IsReady : (c : Config) → validate H c ≡ [] → IsReady c
  unfolding validate
  warned-IsReady c h =
      let (s, h1) = append-eq-nil (system_warnings H c.archive.system) _ h in
      let (b, h2) = append-eq-nil (backend_warnings c) _ h1 in
      let (m, h3) = append-eq-nil (method_warnings H c.wake.method) _ h2 in
      let (k, n) = append-eq-nil (keeper_warnings c.wake) _ h3 in
      let (ssid, password) = (wifi_ready c.wifi).0 n in
      record {
        backend = backend_ready c s b;
        keeper = keeper_ready c.wake m k;
        ssid = ssid;
        password = password;
      }

  IsReady-warned : (c : Config) → IsReady c → validate H c ≡ []
  unfolding validate
  IsReady-warned c r =
      let (s, b) = ready_backend c r.backend in
      let (m, k) = ready_keeper c.wake r.keeper in
      let n = (wifi_ready c.wifi).1 (r.ssid, r.password) in rw (s, b, m, k, n) refl

  -- Validate has no warning just where the archive system is empty, "none", or a known one with its
  -- settings; the wake method is empty, "none", or a known one with its settings; and the home
  -- network has a name and a password.
  pub validate-nil : (c : Config) → (validate H c ≡ []) ↔ IsReady c
  validate-nil c = (warned-IsReady c, IsReady-warned c)
