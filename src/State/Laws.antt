-- ===== src/State/Laws.antt =====
-- What the archived-files table holds after a history, and what the queries on it return.
use teslausb_neo.Base.{
  String, ◌≡◌, refl, Bool, true, false, ◌&&◌, ◌||◌, none, some, List, [], ◌∷◌, ◌==◌, arith,
  if◌then◌else◌,
}
use teslausb_neo.Base.Int.{ℤ, pos}
use teslausb_neo.Host.{Call, sql, Value, text, Answer, History, Host}
use teslausb_neo.Host.Fallible.{is_ok}
use teslausb_neo.State.{insert_text, count_file, mark_archived, is_archived, list_unarchived}

-- The parameters of an insertion name the path first.
abbrev pub inserts_path : List Value → String → Bool
inserts_path (text p ∷ _) path = p == path
inserts_path _ path = false

-- The call inserts the path into archived_files.
abbrev pub inserts : Call → String → Bool
inserts (sql statement parameters) path = statement == insert_text && inserts_path parameters path
inserts _ path = false

abbrev pub no_fault : Answer → Bool
no_fault a = elim a.fault [ none ↦ true | some _ ↦ false ]

module _ (H : Host) where
  -- Some call of the history inserted the path, and the engine reported no fault.
  unfoldable pub stored : History → String → Bool
  stored [] path = false
  stored (c ∷ t) path = (inserts c path && no_fault (H.answer t c)) || stored t path

  -- What SQLite documents of `SELECT COUNT(*) … WHERE path = ?` on a table whose paths are unique
  -- and whose rows are never deleted.
  pub record IsDatabase : Type 0 where
    pub counts : (t : History) (path : String) → (H.answer t (count_file path)).fault ≡ none
    pub amounts :
        (t : History) (path : String)
        → (H.answer t (count_file path)).amount ≡ (if stored t path then pos 1 else pos 0)

  -- The files of a list that the table lacks, in the order of the list.
  unfoldable pub missing : History → List String → List String
  missing t [] = []
  missing t (f ∷ fs) = if stored t f then missing t fs else f ∷ missing t fs

  pub is_archived-stored :
      IsDatabase
      → (path : String) (t : History) → is_archived H path t ≡ (stored t path, count_file path ∷ t)
  unfolding is_archived
  is_archived-stored db path t = ground (arith, db.counts t path, db.amounts t path)

  -- A count changes nothing.
  stored-count : (t : History) (path f : String) → stored (count_file path ∷ t) f ≡ stored t f
  unfolding stored
  stored-count t path f = refl

  missing-count :
      (t : History) (path : String) (fs : List String)
      → missing (count_file path ∷ t) fs ≡ missing t fs
  unfolding missing
  missing-count t path [] = refl
  missing-count t path (f ∷ fs) = ground (arith, stored-count t path f, missing-count t path fs)

  -- ListUnarchived returns exactly the files that the table lacks, in their order.
  pub list_unarchived-missing :
      IsDatabase
      → (files : List String) (t : History) → (list_unarchived H files t).0 ≡ missing t files
  unfolding list_unarchived missing
  list_unarchived-missing db [] t = refl
  list_unarchived-missing db (f ∷ fs) t = ground (
    arith,
    is_archived-stored db f t,
    list_unarchived-missing db fs (count_file f ∷ t),
    missing-count t f fs,
  )

  -- After a successful MarkArchived the path is archived, and every other path is as before.
  pub is_archived-mark_archived :
      IsDatabase
      → (path other : String) (size session : ℤ) (t : History)
      → is_ok (mark_archived H path size session t).0 ≡ true
      → (is_archived H other (mark_archived H path size session t).1).0
        ≡ (if path == other then true else (is_archived H other t).0)
  unfolding mark_archived stored
  is_archived-mark_archived db path other size session t h = ground (
    arith,
    is_archived-stored db other (mark_archived H path size session t).1,
    is_archived-stored db other t,
  )
