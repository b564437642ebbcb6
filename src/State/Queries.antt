-- ===== src/State/Queries.antt =====
-- What the queries that read rows return.
use teslausb_neo.Base.{
  String, ◌≡◌, ◌≢◌, ◌⊎◌, Bool, true, false, none, some, List, [], ◌∷◌, arith, ◌&&◌,
}
use teslausb_neo.Base.Int.{ℤ}
use teslausb_neo.Host.{Value, Row, Answer, History, Host}
use teslausb_neo.Host.Fallible.{ok, err}
use teslausb_neo.State.Rows.{session_of, each_row, collect, recent_sessions, recent_sessions_query}

abbrev scanned : Row → Bool
scanned r = elim r.scan_fault [ none ↦ true | some _ ↦ false ]

abbrev pub all_scanned : List Row → Bool
all_scanned [] = true
all_scanned (r ∷ rs) = scanned r && all_scanned rs

-- One value for each row, in the order of the rows.
abbrev pub values : {A : Type 0} → (List Value → A) → List Row → List A
values read [] = []
values read (r ∷ rs) = read r.columns ∷ values read rs

each_row-cases :
    {A : Type 0} (prefix : String) (read : List Value → A) (rs : List Row)
    → (all_scanned rs ≡ true) × (each_row prefix read rs ≡ ok (values read rs))
      ⊎ (all_scanned rs ≡ false) × ((m : String) × (each_row prefix read rs ≡ err m))
unfolding each_row
each_row-cases prefix read [] = ground arith
each_row-cases prefix read (r ∷ rs) = ground (arith, each_row-cases prefix read rs)

module _ (H : Host) where
  collect-cases :
      {A : Type 0} (scan iterate : String) (read : List Value → A) (a : Answer) (t : History)
      → (all_scanned a.rows ≡ true)
          × (a.rows_fault ≡ none)
          × ((collect H scan iterate read a t).0 ≡ ok (values read a.rows))
        ⊎ ((all_scanned a.rows ≡ false) ⊎ (a.rows_fault ≢ none))
          × ((m : String) × ((collect H scan iterate read a t).0 ≡ err m))
  unfolding collect
  collect-cases scan iterate read a t = ground (arith, each_row-cases scan read a.rows)

  -- RecentSessions returns a session for each row of its query, in the order of the rows, where
  -- the query, the Scan of every row and the end of the rows are without a fault, and an error in
  -- all other cases.
  pub recent_sessions-cases :
      (limit : ℤ) (t : History)
      → let a = H.answer t (recent_sessions_query limit) in
        let r = (recent_sessions H limit t).0 in
        (a.fault ≡ none)
          × (all_scanned a.rows ≡ true)
          × (a.rows_fault ≡ none)
          × (r ≡ ok (values (session_of H) a.rows))
        ⊎ ((a.fault ≢ none) ⊎ (all_scanned a.rows ≡ false) ⊎ (a.rows_fault ≢ none))
          × ((m : String) × (r ≡ err m))
  unfolding recent_sessions
  recent_sessions-cases limit t = ground (
    arith,
    collect-cases "scan session row" "iterate sessions" (session_of H)
        (H.answer t (recent_sessions_query limit)) (recent_sessions_query limit ∷ t),
  )
