-- ===== src/Tesla.antt =====
-- internal/tesla: keeping the car awake. Go's interface `WakeKeeper` is a data type; Start and
-- Stop return the keeper after the call, since the BLE keeper knows whether its loop runs. The
-- loop itself is a goroutine, modelled beside Start; its interleaving with the daemon is left out.
use teslausb_neo.Base.{
  ℕ, zero, suc, String, ◌<>◌, Bool, true, false, ◌||◌, none, some, [], ◌∷◌, ◌==◌, if◌then◌else◌,
}
use teslausb_neo.Base.Int.{ℤ, pos, leb_ℤ, ltb_ℤ}
use teslausb_neo.Host.{run, post, wait, Host}
use teslausb_neo.Host.Io.{M, ask}
use teslausb_neo.Host.Fallible.{Result, ok, err, Done, return, fail, ◌>>=◌, wrap, try}

pub record Ble : Type 0 where
  pub vin : String
  pub binary_path : String
  pub running : Bool  -- cancel != nil

pub record Tessie : Type 0 where
  pub api_token : String
  pub vin : String

pub data WakeKeeper : Type 0 where
  ble : Ble → WakeKeeper
  tessie : Tessie → WakeKeeper
  webhook : String → WakeKeeper  -- its URL
  noop : WakeKeeper

-- NewBLEWakeKeeper
unfoldable pub new_ble : String → String → Ble
new_ble vin binary_path = record {
  vin = vin;
  binary_path = if binary_path == "" then "tesla-control" else binary_path;
  running = false;
}

-- NewTessieWakeKeeper
unfoldable pub new_tessie : String → String → Tessie
new_tessie api_token vin = record { api_token = api_token; vin = vin }

module _ (H : Host) where
  -- A status outside 200..299 is an error.
  check_status : String → ℤ → Done
  check_status prefix status =
      if ltb_ℤ status (pos 200) || leb_ℤ (pos 300) status
      then fail (prefix <> H.itoa status)
      else return tt

  unfoldable pub ble_nudge : Ble → Done
  ble_nudge b t =
      let (a, t') =
        ask H (run b.binary_path ("-vin" ∷ b.vin ∷ "-ble" ∷ "body-controller-state" ∷ [])) t in
      (
        elim a.fault [
          | none ↦ ok tt
          | some f ↦ err ("ble nudge: " <> H.trim_space a.text <> ": " <> f.message)
        ],
        t',
      )

  -- The ticks of the loop, of which `fuel` are watched: whether it has returned.
  unfoldable pub ble_ticks : ℕ → Ble → M Bool
  unfolding ble_nudge
  ble_ticks zero b t = (false, t)
  ble_ticks (suc fuel) b t =
      let (a, t') = ask H (wait (pos 30000000000)) t in
      elim a.cancelled [ true ↦ (true, t') | false ↦ ble_ticks fuel b (ble_nudge b t').1 ]

  -- (*BLEWakeKeeper).loop: a nudge at once, and one on every tick.
  unfoldable pub ble_loop : ℕ → Ble → M Bool
  unfolding ble_nudge ble_ticks
  ble_loop fuel b t = ble_ticks fuel b (ble_nudge b t).1

  tessie_nudge : Tessie → Done
  unfolding check_status
  tessie_nudge k = do
    let url = "https://api.tessie.com/" <> k.vin <> "/wake"
    let headers = ("Authorization", "Bearer " <> k.api_token) ∷ ("Accept", "application/json") ∷ []
    a ← wrap "tessie: wake request" (try H (post url headers ""))
    check_status "tessie: unexpected status " a.amount

  -- (*WebhookWakeKeeper).post
  webhook_post : String → String → Done
  unfolding check_status
  webhook_post url action = do
    let body = "{\"action\":" <> H.quote action <> "}"
    a ←
        wrap ("webhook: " <> action <> " request")
          (try H (post url (("Content-Type", "application/json") ∷ []) body))
    check_status ("webhook: " <> action <> " unexpected status ") a.amount

  unfoldable pub start : WakeKeeper → M (WakeKeeper × Result (Unit {0}))
  unfolding webhook_post
  start (ble b) t = ((ble (record b { running = true }), ok tt), t)
  start (tessie k) t = ((tessie k, ok tt), t)
  start (webhook url) t = let (r, t') = webhook_post url "start" t in ((webhook url, r), t')
  start noop t = ((noop, ok tt), t)

  unfoldable pub stop : WakeKeeper → M (WakeKeeper × Result (Unit {0}))
  unfolding webhook_post
  stop (ble b) t = ((ble (record b { running = false }), ok tt), t)
  stop (tessie k) t = ((tessie k, ok tt), t)
  stop (webhook url) t = let (r, t') = webhook_post url "stop" t in ((webhook url, r), t')
  stop noop t = ((noop, ok tt), t)

  unfoldable pub nudge : WakeKeeper → Done
  unfolding ble_nudge tessie_nudge webhook_post
  nudge (ble b) t = ble_nudge b t
  nudge (tessie k) t = tessie_nudge k t
  nudge (webhook url) t = webhook_post url "nudge" t
  nudge noop t = (ok tt, t)
