-- ===== src/Wifi/Manager/Laws.antt =====
-- What a scan can contain.
use teslausb_neo.Base.{
  ◌⊎◌, String, ◌≡◌, ◌≢◌, false, none, some, Option, List, [], ◌∷◌, ◌==◌, eq_iff, contains, arith,
  All, Option-cases, Bool-cases, inl, inr,
}
use teslausb_neo.Host.{Call, Fault, run, History, Host}
use teslausb_neo.Wifi.Manager.{Network, network_of, networks_from, scan_networks}

-- No network's name is in the list.
abbrev pub Fresh : List String → List Network → Type 0
Fresh seen = All (λ n. (contains seen n.ssid ≡ false) × (n.ssid ≢ ""))

-- Every network has a name, and no two have the same.
abbrev pub Distinct : List Network → Type 0
Distinct [] = Unit
Distinct (n ∷ ns) = (n.ssid ≢ "") × All (λ k. (k.ssid == n.ssid) ≡ false) ns × Distinct ns

fewer_seen :
    (seen : List String) (name : String) (ns : List Network)
    → Fresh (name ∷ seen) ns
    → Fresh seen ns
fewer_seen seen name [] h = tt
fewer_seen seen name (n ∷ ns) ((c, named), h) = ((ground arith, named), fewer_seen seen name ns h)

others :
    (seen : List String) (name : String) (ns : List Network)
    → Fresh (name ∷ seen) ns
    → All (λ k. (k.ssid == name) ≡ false) ns
others seen name [] h = tt
others seen name (n ∷ ns) ((c, named), h) = (ground arith, others seen name ns h)

module _ (H : Host) where
  network_of-named : (parts : List String) (n : Network) → network_of H parts ≡ some n → n.ssid ≢ ""
  unfolding network_of
  network_of-named [] n h = absurd (ground arith)
  network_of-named (a ∷ []) n h = absurd (ground arith)
  network_of-named (a ∷ b ∷ []) n h = absurd (ground arith)
  network_of-named (a ∷ b ∷ c ∷ rest) n h = ground (arith, eq_iff a "")

  -- What the loop does with a line: it leaves it out, or keeps a network with a new name.
  networks_from-cons :
      (seen : List String) (line : String) (rest : List String)
      → (networks_from H seen (line ∷ rest) ≡ networks_from H seen rest)
        ⊎ ((n : Network) × (n.ssid ≢ "")
            × (contains seen n.ssid ≡ false)
            × (networks_from H seen (line ∷ rest) ≡ n ∷ networks_from H (n.ssid ∷ seen) rest))
  unfolding networks_from
  networks_from-cons seen line rest = elim (Option-cases (network_of H (H.split_n3 line))) [
    | inl e ↦ inl (ground arith)
    | inr (n, e) ↦ elim (Bool-cases (contains seen n.ssid)) [
      | inl c ↦ inl (ground arith)
      | inr c ↦ inr (n, network_of-named (H.split_n3 line) n e, c, ground arith)
    ]
  ]

  networks_from-Fresh :
      (seen lines : List String)
      → Fresh seen (networks_from H seen lines) × Distinct (networks_from H seen lines)
  networks_from-Fresh seen [] = unfold networks_from in (tt, tt)
  networks_from-Fresh seen (line ∷ rest) = elim (networks_from-cons seen line rest) [
    | inl e ↦ rw e (networks_from-Fresh seen rest)
    | inr (n, named, c, e) ↦
        let (fresh, distinct) = networks_from-Fresh (n.ssid ∷ seen) rest in
        rw e (
          ((c, named), fewer_seen seen n.ssid _ fresh),
          (named, others seen n.ssid _ fresh, distinct),
        )
  ]

  -- A scan lists no hidden network, and no name twice.
  pub scan_networks-Distinct : (t : History) → Distinct (scan_networks H t).0
  unfolding scan_networks
  scan_networks-Distinct t =
      listed (H.answer (rescan ∷ t) list).fault
        (H.lines (H.trim_space (H.answer (rescan ∷ t) list).text))
    where
      rescan : Call
      rescan = run "nmcli" ("device" ∷ "wifi" ∷ "rescan" ∷ [])

      list : Call
      list = run "nmcli" ("-t" ∷ "-f" ∷ "SSID,SIGNAL,SECURITY" ∷ "dev" ∷ "wifi" ∷ "list" ∷ [])

      listed :
          (f : Option Fault) (lines : List String)
          → Distinct (elim f [ none ↦ networks_from H [] lines | some _ ↦ [] ])
      listed none lines = (networks_from-Fresh [] lines).1
      listed (some _) lines = tt
