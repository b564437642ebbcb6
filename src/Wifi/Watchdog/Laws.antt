-- ===== src/Wifi/Watchdog/Laws.antt =====
-- What the watchdog does about what it sees: the count of failures, and when it reboots.
use teslausb_neo.Base.{
  ℕ, zero, suc, inl, inr, Bool-cases, ◌+◌, ◌≤◌, ◌<◌, String, ◌≡◌, refl, Bool, true, false, some,
  arith, ◌∷◌, if◌then◌else◌,
}
use teslausb_neo.Base.Int.{ℤ, pos, ◌+ℤ◌, wrap_int64, wrap_int64_pos, seconds, leb_ℤ}
use teslausb_neo.Host.{wait, History, Host}
use teslausb_neo.Host.Io.{M, pure, ◌>>=◌}
use teslausb_neo.Host.Fallible.{Result, ok, err, Done}
use teslausb_neo.Wifi.Watchdog.{
  Connectivity, at_home, not_at_home, after_failure, watchdog_tick, watchdog_rounds,
}

-- What one tick finds: the home network joined; out of range; joined again by the attempt; or
-- visible and not to be joined.
pub data Sight : Type 0 where
  home away rejoined stuck : Sight

unfoldable pub try_to_join : Connectivity → String → M Sight
try_to_join conn ssid = do
  r ← conn.connect_to_home ssid
  pure (elim r [ ok _ ↦ rejoined | err _ ↦ stuck ])

abbrev look_around : Connectivity → String → M Sight
look_around conn ssid = do
  visible ← conn.is_ssid_visible ssid
  if visible then try_to_join conn ssid else pure away

-- The questions to the network, in order.
unfoldable pub look : Connectivity → String → M Sight
unfolding try_to_join
look conn ssid = do
  connected ← conn.is_connected
  elim connected [
    | false ↦ look_around conn ssid
    | true ↦ do
      joined ← conn.is_home_network ssid
      elim joined [ true ↦ pure home | false ↦ look_around conn ssid ]
  ]

-- The network is not the home network: there is no connection, or it is to another network. The
-- histories are those before and behind the questions.
pub data Elsewhere (conn : Connectivity) (ssid : String) (t : History) : History → Type 0 where
  disconnected : (conn.is_connected t).0 ≡ false → Elsewhere conn ssid t (conn.is_connected t).1
  elsewhere :
      (conn.is_connected t).0 ≡ true
      → (conn.is_home_network ssid (conn.is_connected t).1).0 ≡ false
      → Elsewhere conn ssid t (conn.is_home_network ssid (conn.is_connected t).1).1

-- What the answers of the network show, and the history behind them.
pub data Sees (conn : Connectivity) (ssid : String) (t : History) : Sight → History → Type 0 where
  at_home_network :
      (conn.is_connected t).0 ≡ true
      → (conn.is_home_network ssid (conn.is_connected t).1).0 ≡ true
      → Sees conn ssid t home (conn.is_home_network ssid (conn.is_connected t).1).1
  invisible :
      {u : History}
      → Elsewhere conn ssid t u
      → (conn.is_ssid_visible ssid u).0 ≡ false
      → Sees conn ssid t away (conn.is_ssid_visible ssid u).1
  joined_again :
      {u : History}
      → Elsewhere conn ssid t u
      → (conn.is_ssid_visible ssid u).0 ≡ true
      → (conn.connect_to_home ssid (conn.is_ssid_visible ssid u).1).0 ≡ ok tt
      → Sees conn ssid t rejoined (conn.connect_to_home ssid (conn.is_ssid_visible ssid u).1).1
  refused :
      {u : History} {m : String}
      → Elsewhere conn ssid t u
      → (conn.is_ssid_visible ssid u).0 ≡ true
      → (conn.connect_to_home ssid (conn.is_ssid_visible ssid u).1).0 ≡ err m
      → Sees conn ssid t stuck (conn.connect_to_home ssid (conn.is_ssid_visible ssid u).1).1

-- The count that a sight leaves.
abbrev pub count_after : Sight → ℤ → ℤ
count_after stuck n = wrap_int64 (n +ℤ pos 1)
count_after _ n = pos 0

-- A reboot follows a tick that was stuck, once the count has reached the limit.
abbrev pub reboots : Sight → ℤ → ℤ → Bool
reboots stuck n max = leb_ℤ max (wrap_int64 (n +ℤ pos 1))
reboots _ n max = false

watchdog_tick-look :
    (conn : Connectivity) (ssid : String) (n max : ℤ) (reboot : Done) (t : History)
    → let (s, u) = look conn ssid t in
      watchdog_tick conn ssid n max reboot t
      ≡ (count_after s n, if reboots s n max then (reboot u).1 else u)
unfolding watchdog_tick at_home look after_failure
watchdog_tick-look conn ssid n max reboot t = ground arith

-- After the questions to a network that is not the home network, what a tick does.
tick_from :
    (conn : Connectivity) (ssid : String) (n max : ℤ) (reboot : Done) (t u : History)
    → Elsewhere conn ssid t u
    → watchdog_tick conn ssid n max reboot t ≡ not_at_home conn ssid n max reboot u
unfolding watchdog_tick at_home
tick_from conn ssid n max reboot t _ (disconnected c) = ground (arith, c)
tick_from conn ssid n max reboot t _ (elsewhere c h) = ground (arith, c, h)

-- What a tick does, given what the network shows.
tick_of_sight :
    (conn : Connectivity) (ssid : String) (n max : ℤ) (reboot : Done) (t u : History) (s : Sight)
    → Sees conn ssid t s u
    → watchdog_tick conn ssid n max reboot t
      ≡ (count_after s n, if reboots s n max then (reboot u).1 else u)
unfolding watchdog_tick at_home not_at_home after_failure
tick_of_sight conn ssid n max reboot t _ _ (at_home_network c h) = ground (arith, c, h)
tick_of_sight conn ssid n max reboot t _ _ (invisible w v) =
    ground (arith, tick_from conn ssid n max reboot t _ w, v)
tick_of_sight conn ssid n max reboot t _ _ (joined_again w v c) =
    ground (arith, tick_from conn ssid n max reboot t _ w, v, c)
tick_of_sight conn ssid n max reboot t _ _ (refused w v c) =
    ground (arith, tick_from conn ssid n max reboot t _ w, v, c)

-- One of the four things can be seen.
abbrev Seen : Connectivity → String → History → Type 0
Seen conn ssid t = (s : Sight) × (u : History) × Sees conn ssid t s u

seen_from :
    (conn : Connectivity) (ssid : String) (t u : History)
    → Elsewhere conn ssid t u
    → Seen conn ssid t
seen_from conn ssid t u w = elim (Bool-cases (conn.is_ssid_visible ssid u).0) [
  | inr v ↦ (away, _, invisible w v)
  | inl v ↦ go (conn.connect_to_home ssid (conn.is_ssid_visible ssid u).1).0 refl v
]
  where
    go :
        (r : Result (Unit {0}))
        → (conn.connect_to_home ssid (conn.is_ssid_visible ssid u).1).0 ≡ r
        → (conn.is_ssid_visible ssid u).0 ≡ true
        → Seen conn ssid t
    go (ok _) e v = (rejoined, _, joined_again w v e)
    go (err m) e v = (stuck, _, refused w v e)

seen : (conn : Connectivity) (ssid : String) (t : History) → Seen conn ssid t
seen conn ssid t = elim (Bool-cases (conn.is_connected t).0) [
  | inr c ↦ seen_from conn ssid t _ (disconnected c)
  | inl c ↦ elim (Bool-cases (conn.is_home_network ssid (conn.is_connected t).1).0) [
    | inl h ↦ (home, _, at_home_network c h)
    | inr h ↦ seen_from conn ssid t _ (elsewhere c h)
  ]
]

-- A tick finds one of four things in the answers of the network: the home network is joined, is out
-- of range, is joined by the attempt, or refuses it. The count that the tick leaves and its reboot
-- depend on that alone: it reboots, behind those answers, just where it was refused and the new
-- count has reached the limit.
pub watchdog_tick-Sees :
    (conn : Connectivity) (ssid : String) (n max : ℤ) (reboot : Done) (t : History)
    → (s : Sight) × (u : History) × Sees conn ssid t s u
      × (watchdog_tick conn ssid n max reboot t
          ≡ (count_after s n, if reboots s n max then (reboot u).1 else u))
watchdog_tick-Sees conn ssid n max reboot t =
    let (s, u, sight) = seen conn ssid t in
    (s, u, sight, tick_of_sight conn ssid n max reboot t u s sight)

count_next : (n : ℕ) → n < 9223372036854775807 → wrap_int64 (pos n +ℤ pos 1) ≡ pos (suc n)
count_next n h = ground (arith, wrap_int64_pos (n + 1))

reboots_below :
    (s : Sight) (n max : ℕ)
    → n + 1 < max
    → max ≤ 9223372036854775807
    → reboots s (pos n) (pos max) ≡ false
reboots_below home n max h b = refl
reboots_below away n max h b = refl
reboots_below rejoined n max h b = refl
reboots_below stuck n max h b = ground (arith, count_next n (omega arith))

-- The count as a number, where it does not wrap.
abbrev count_of : Sight → ℕ → ℕ
count_of stuck n = suc n
count_of _ n = 0

count_after-of :
    (s : Sight) (n : ℕ) → n < 9223372036854775807 → count_after s (pos n) ≡ pos (count_of s n)
count_after-of stuck n h = count_next n h
count_after-of _ n h = refl

count_of-le : (s : Sight) (n : ℕ) → count_of s n ≤ suc n
count_of-le stuck n = omega arith
count_of-le _ n = omega arith

-- A tick whose count stays under the limit only looks.
quiet_tick :
    (conn : Connectivity) (ssid : String) (n max : ℕ) (reboot : Done) (t : History)
    → n + 1 < max
    → max ≤ 9223372036854775807
    → watchdog_tick conn ssid (pos n) (pos max) reboot t
      ≡ (pos (count_of (look conn ssid t).0 n), (look conn ssid t).1)
quiet_tick conn ssid n max reboot t h b =
    let s = (look conn ssid t).0 in
    ground (
      arith,
      watchdog_tick-look conn ssid (pos n) (pos max) reboot t,
      reboots_below s n max h b,
      count_after-of s n (omega arith),
    )

module _ (H : Host) (conn : Connectivity) (ssid : String) (interval : ℤ) where
  -- While the count and the rounds to come stay together under the limit, which is an int64, the
  -- watchdog does not reboot: with any other reboot it makes the same calls and keeps its count.
  pub rounds_without_reboot :
      (rounds n max : ℕ) (reboot other : Done) (t : History)
      → n + rounds < max
      → max ≤ 9223372036854775807
      → watchdog_rounds H rounds conn ssid interval (pos n) (pos max) reboot t
        ≡ watchdog_rounds H rounds conn ssid interval (pos n) (pos max) other t
  unfolding watchdog_rounds
  rounds_without_reboot zero n max reboot other t h b = refl
  rounds_without_reboot (suc rounds) n max reboot other t h b =
      let u = wait (seconds interval) ∷ t in
      let (s, u') = look conn ssid u in
      let small = count_of-le s n in
      ground (
        arith,
        quiet_tick conn ssid n max reboot u (omega arith) b,
        quiet_tick conn ssid n max other u (omega arith) b,
        rounds_without_reboot rounds (count_of s n) max reboot other u' (omega (arith, small)) b,
      )

  -- The history that a stuck round leaves, when the count before it was `n`.
  abbrev pub after_stuck : ℕ → ℤ → Done → History → History
  after_stuck n max reboot t =
      let u = (look conn ssid (wait (seconds interval) ∷ t)).1 in
      if leb_ℤ max (pos (suc n)) then (reboot u).1 else u

  module _ (runs : (u : History) → (H.answer u (wait (seconds interval))).cancelled ≡ false)
      (sees : (u : History) → (look conn ssid u).0 ≡ stuck) where
    stuck_round :
        (rounds n : ℕ) (max : ℤ) (reboot : Done) (t : History)
        → n < 9223372036854775807
        → watchdog_rounds H (suc rounds) conn ssid interval (pos n) max reboot t
          ≡ watchdog_rounds H rounds conn ssid interval
              (pos (suc n))
              max
              reboot
              (after_stuck n max reboot t)
    unfolding watchdog_rounds
    stuck_round rounds n max reboot t h =
        let u = wait (seconds interval) ∷ t in
        ground
          (arith, runs t, sees u, watchdog_tick-look conn ssid (pos n) max reboot u, count_next n h)

    -- While no wait is cancelled, the network stays visible and cannot be joined, and the count
    -- fits an int64: each round adds one to the count, and the last one looks for the network and
    -- then reboots just if the count has reached the limit.
    pub stuck_rounds :
        (rounds n : ℕ) (max : ℤ) (reboot : Done) (t : History)
        → n + suc rounds ≤ 9223372036854775807
        → let r = watchdog_rounds H (suc rounds) conn ssid interval (pos n) max reboot t in
          (r.0 ≡ some (pos (n + suc rounds)))
          × ((v : History) × (r.1 ≡ after_stuck (n + rounds) max reboot v))
    stuck_rounds zero n max reboot t h =
        rw (stuck_round 0 n max reboot t (omega arith))
          (unfold watchdog_rounds in ground arith, (t, unfold watchdog_rounds in ground arith))
    stuck_rounds (suc rounds) n max reboot t h =
        rw (stuck_round (suc rounds) n max reboot t (omega arith)) (
          let e : n + suc (suc rounds) ≡ suc n + suc rounds = omega arith in
          let e' : n + suc rounds ≡ suc n + rounds = omega arith in
          rw e (
            rw e'
              (stuck_rounds rounds (suc n) max reboot (after_stuck n max reboot t) (omega arith))))
