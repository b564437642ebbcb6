-- ===== src/State/Refinement.antt =====
-- The store as a client sees it: a set of paths.
use teslausb_neo.Base.{
  String, ◌≡◌, refl, Bool, true, false, ◌||◌, List, [], ◌∷◌, ◌==◌, if◌then◌else◌, arith, inl, inr,
  sym, Bool-cases,
}
use teslausb_neo.Base.Int.{ℤ}
use teslausb_neo.Host.{History, Host}
use teslausb_neo.Host.Io.{M}
use teslausb_neo.Host.Fallible.{is_ok}
use teslausb_neo.State.{
  count_file, mark_archived, is_archived, list_unarchived, create_session, complete_session,
  fail_session,
}
use teslausb_neo.State.Rows.{record_health, recent_sessions, recent_health}
use teslausb_neo.State.Laws.{
  stored, IsDatabase, missing, is_archived-stored, list_unarchived-missing,
}

-- The methods of *DB that do not touch the archived files.
pub data Bookkeeping : Type 0 where
  creates_session : Bookkeeping
  completes_session : ℤ → ℤ → ℤ → Bookkeeping
  fails_session : ℤ → String → Bookkeeping
  records_health : ℤ → ℤ → ℤ → Bookkeeping
  reads_sessions reads_health : ℤ → Bookkeeping

-- The methods of *DB, but those that open and close it.
pub data Operation : Type 0 where
  marks : String → ℤ → ℤ → Operation
  asks : String → Operation
  lists : List String → Operation
  other : Bookkeeping → Operation

-- What a client learns about the archived files.
pub data Reply : Type 0 where
  done : Bool → Reply  -- whether the error is nil
  known : Bool → Reply
  files : List String → Reply

-- An event: an operation and its reply.
abbrev pub Events : Type 0
Events = List (Operation × Reply)

abbrev pub member : List String → String → Bool
member [] f = false
member (p ∷ ps) f = p == f || member ps f

abbrev pub absent : List String → List String → List String
absent set [] = []
absent set (f ∷ fs) = if member set f then absent set fs else f ∷ absent set fs

-- The abstract store: the events that a set of archived paths allows.
pub data Allows : List String → Events → Type 0 where
  ends : {set : List String} → Allows set []
  adds :
      {set : List String} {p : String} {size session : ℤ} {es : Events}
      → Allows (p ∷ set) es
      → Allows set ((marks p size session, done true) ∷ es)
  refuses :
      {set : List String} {p : String} {size session : ℤ} {es : Events}
      → Allows set es
      → Allows set ((marks p size session, done false) ∷ es)
  answers :
      {set : List String} {p : String} {es : Events}
      → Allows set es
      → Allows set ((asks p, known (member set p)) ∷ es)
  filters :
      {set : List String} {fs : List String} {es : Events}
      → Allows set es
      → Allows set ((lists fs, files (absent set fs)) ∷ es)
  keeps :
      {set : List String} {o : Bookkeeping} {b : Bool} {es : Events}
      → Allows set es
      → Allows set ((other o, done b) ∷ es)

module _ (H : Host) where
  unfoldable pub keep_books : Bookkeeping → M Bool
  unfolding create_session complete_session fail_session record_health recent_sessions recent_health
  keep_books creates_session t = let (r, t') = create_session H t in (is_ok r, t')
  keep_books (completes_session id n bytes) t =
      let (r, t') = complete_session H id n bytes t in (is_ok r, t')
  keep_books (fails_session id message) t =
      let (r, t') = fail_session H id message t in (is_ok r, t')
  keep_books (records_health temp used free) t =
      let (r, t') = record_health H temp used free t in (is_ok r, t')
  keep_books (reads_sessions limit) t = let (r, t') = recent_sessions H limit t in (is_ok r, t')
  keep_books (reads_health limit) t = let (r, t') = recent_health H limit t in (is_ok r, t')

  unfoldable pub perform : Operation → M Reply
  unfolding keep_books
  perform (marks path size session) t =
      let (r, t') = mark_archived H path size session t in (done (is_ok r), t')
  perform (asks path) t = let (b, t') = is_archived H path t in (known b, t')
  perform (lists fs) t = let (left, t') = list_unarchived H fs t in (files left, t')
  perform (other o) t = let (b, t') = keep_books o t in (done b, t')

  -- A client that performs the operations in turn.
  unfoldable pub session : List Operation → History → Events
  unfolding perform
  session [] t = []
  session (o ∷ os) t = let (reply, t') = perform o t in (o, reply) ∷ session os t'

  -- The set has the paths that the table has.
  abbrev Represents : List String → History → Type 0
  Represents set t = (f : String) → member set f ≡ stored H t f

  keep_books-stored :
      (o : Bookkeeping) (t : History) (f : String) → stored H (keep_books o t).1 f ≡ stored H t f
  unfolding keep_books stored
  keep_books-stored creates_session t f = ground arith
  keep_books-stored (completes_session id n bytes) t f = ground arith
  keep_books-stored (fails_session id message) t f = ground arith
  keep_books-stored (records_health temp used free) t f = ground arith
  keep_books-stored (reads_sessions limit) t f = ground arith
  keep_books-stored (reads_health limit) t f = ground arith

  mark_archived-stored :
      (path : String) (size n : ℤ) (t : History) (f : String)
      → stored H (mark_archived H path size n t).1 f ≡ (
          if is_ok (mark_archived H path size n t).0
          then (path == f || stored H t f)
          else stored H t f)
  unfolding mark_archived stored
  mark_archived-stored path size n t f = ground arith

  list_unarchived-stored :
      (fs : List String) (t : History) (f : String)
      → stored H (list_unarchived H fs t).1 f ≡ stored H t f
  unfolding list_unarchived is_archived stored
  list_unarchived-stored [] t f = refl
  list_unarchived-stored (g ∷ fs) t f =
      ground (arith, list_unarchived-stored fs (count_file g ∷ t) f)

  missing-absent :
      (set : List String) (t : History)
      → Represents set t
      → (fs : List String) → missing H t fs ≡ absent set fs
  unfolding missing
  missing-absent set t same [] = refl
  missing-absent set t same (f ∷ fs) = ground (arith, same f, missing-absent set t same fs)

  module _ (db : IsDatabase H) where
    after_mark :
        (p : String) (size n : ℤ) (t : History) (set : List String) (es : Events)
        → Represents set t
        → ((ps : List String) → Represents ps (mark_archived H p size n t).1 → Allows ps es)
        → Allows set ((marks p size n, done (is_ok (mark_archived H p size n t).0)) ∷ es)
    after_mark p size n t set es same later =
        elim (Bool-cases (is_ok (mark_archived H p size n t).0)) [
          | inl e ↦ rw e (
              adds (
                later (p ∷ set)
                  (λ f. ground (arith, e, same f, mark_archived-stored p size n t f))))
          | inr e ↦ rw e (
              refuses
                (later set (λ f. ground (arith, e, same f, mark_archived-stored p size n t f))))
        ]

    -- Whatever operations a client performs over a database, from a table that has the paths of a
    -- set on, their replies are those of the abstract store.
    pub session-Allows :
        (os : List Operation) (set : List String) (t : History)
        → Represents set t
        → Allows set (session os t)
    unfolding session perform stored
    session-Allows [] set t same = ends
    session-Allows (marks p size n ∷ os) set t same =
        after_mark p size n t set (session os (mark_archived H p size n t).1) same
          (λ ps same'. session-Allows os ps (mark_archived H p size n t).1 same')
    session-Allows (asks p ∷ os) set t same =
        rw (is_archived-stored H db p t, sym (same p))
          (answers (session-Allows os set (count_file p ∷ t) same))
    session-Allows (lists fs ∷ os) set t same =
        rw (list_unarchived-missing H db fs t, missing-absent set t same fs)
          (filters (
            session-Allows os set (list_unarchived H fs t).1
              (λ f. ground (arith, same f, list_unarchived-stored fs t f))))
    session-Allows (other o ∷ os) set t same = keeps (
        session-Allows os set (keep_books o t).1
          (λ f. ground (arith, same f, keep_books-stored o t f)))
