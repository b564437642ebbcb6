-- ===== src/Daemon/Archiving/Marking.antt =====
-- What a session writes down about the files it transfers. The progress function of `runArchive`
-- runs before each copy.
use teslausb_neo.Base.{
  ℕ, String, ◌≡◌, ◌≢◌, refl, true, Option, none, some, List, ◌∷◌, length, Memᴰ, arith, test_self,
}
use teslausb_neo.Base.Int.{ℤ, pos}
use teslausb_neo.Host.{History, Host}
use teslausb_neo.Host.Fallible.{ok, err, Done, return}
use teslausb_neo.State.{insert_file, mark_archived, is_archived}
use teslausb_neo.State.Laws.{IsDatabase, stored, is_archived-stored}
use teslausb_neo.Archive.Backend.{Archiver, cifs, nfs, rsync, rclone, noop, archive_files}
use teslausb_neo.Archive.Transfer.{Progress, transfer}
use teslausb_neo.Archive.Cifs
use teslausb_neo.Archive.Nfs
use teslausb_neo.Archive.Rsync
use teslausb_neo.Archive.Rclone
use teslausb_neo.Archive.Laws.{transfer_from-Run, Run-last_index, Run-failed_at}
use teslausb_neo.Daemon.Archiving.{progress_fn}

-- The commands that copy one file; the no-op backend copies nothing.
abbrev pub copy_of : Host → Archiver → String → String → Done
copy_of H (cifs b) = Cifs.copy_file H b
copy_of H (nfs b) = Nfs.copy_file H b
copy_of H (rsync b) = Rsync.copy_file H b
copy_of H (rclone b) = Rclone.copy_file H b
copy_of H noop = λ root f. return tt

module _ (H : Host) where
  archive_files-transfer :
      (b : Archiver) (root : String) (files : List String) (p : Option Progress) (v : ℤ)
      → b ≢ noop
      → archive_files H b root files p v ≡ transfer (copy_of H b root) p files v
  unfolding archive_files
  archive_files-transfer (cifs b) root files p v n = refl
  archive_files-transfer (nfs b) root files p v n = refl
  archive_files-transfer (rsync b) root files p v n = refl
  archive_files-transfer (rclone b) root files p v n = refl
  archive_files-transfer noop root files p v n = absurd (n refl)

  -- Copying a file writes nothing to the database.
  stored-copy :
      (b : Archiver) (root f path : String) (t : History)
      → stored H t path ≡ true
      → stored H (copy_of H b root f t).1 path ≡ true
  unfolding stored Cifs.copy_file Nfs.copy_file Rsync.copy_file Rclone.copy_file
  stored-copy (cifs b) root f path t h = ground arith
  stored-copy (nfs b) root f path t h = ground arith
  stored-copy (rsync b) root f path t h = ground arith
  stored-copy (rclone b) root f path t h = ground arith
  stored-copy noop root f path t h = h

module _ (H : Host) (version : String) (session : ℤ) where
  progress_history :
      (i total : ℕ) (f : String) (v : ℤ) (t : History)
      → (progress_fn H version session i total f v t).1 ≡ insert_file f (pos 0) session ∷ t
  unfolding progress_fn mark_archived
  progress_history i total f v t = ground arith

  transfer_count :
      (copy : String → Done) (f : String) (fs : List String) (v : ℤ) (t : History)
      → let r = (transfer copy (some (progress_fn H version session)) (f ∷ fs) v t).0 in
        r.1 ≡ ok tt → r.0 ≡ pos (length fs)
  unfolding transfer progress_fn
  transfer_count copy f fs v t h = ground (
    arith,
    Run-last_index copy (progress_fn H version session) (λ i total g w u. refl)
        (transfer_from-Run copy (progress_fn H version session) (length (f ∷ fs)) (f ∷ fs) 0 v t) h,
  )

  -- With any backend but noop: when all the files of a session were copied, one file or more, the
  -- count that the progress function leaves is one less than their number.
  pub archived_count :
      (b : Archiver) (root f : String) (fs : List String) (v : ℤ) (t : History)
      → b ≢ noop
      → (archive_files H b root (f ∷ fs) (some (progress_fn H version session)) v t).0.1 ≡ ok tt
      → (archive_files H b root (f ∷ fs) (some (progress_fn H version session)) v t).0.0
        ≡ pos (length fs)
  archived_count b root f fs v t n =
      rw (archive_files-transfer H b root (f ∷ fs) (some (progress_fn H version session)) v n)
        (transfer_count (copy_of H b root) f fs v t)

  transfer_failed :
      (copy : String → Done) (files : List String) (v : ℤ) (t : History) (m : String)
      → let r = transfer copy (some (progress_fn H version session)) files v t in
        r.0.1 ≡ err m
        → (f : String) × (u : History) × Memᴰ f files
          × (copy f (insert_file f (pos 0) session ∷ u) ≡ (err m, r.1))
  unfolding transfer
  transfer_failed copy files v t m h =
      let p = progress_fn H version session in
      let run = transfer_from-Run copy p (length files) files 0 v t in
      let (f, j, w, u, member, e) = Run-failed_at copy p run h in
      (f, u, member, rw progress_history at e)

  -- A transfer that fails did so at a file of the list that it had just marked as archived: the
  -- copy that failed started right behind the insertion of the file.
  pub failed_after_mark :
      (b : Archiver) (root : String) (files : List String) (v : ℤ) (t : History) (m : String)
      → b ≢ noop
      → (archive_files H b root files (some (progress_fn H version session)) v t).0.1 ≡ err m
      → let r = archive_files H b root files (some (progress_fn H version session)) v t in
        (f : String) × (u : History) × Memᴰ f files
        × (copy_of H b root f (insert_file f (pos 0) session ∷ u) ≡ (err m, r.1))
  failed_after_mark b root files v t m n =
      rw (archive_files-transfer H b root files (some (progress_fn H version session)) v n)
        (transfer_failed (copy_of H b root) files v t m)

  stored-insert :
      (f : String) (u : History)
      → (H.answer u (insert_file f (pos 0) session)).fault ≡ none
      → stored H (insert_file f (pos 0) session ∷ u) f ≡ true
  unfolding stored
  stored-insert f u h = ground (arith, test_self f)

  -- Over a database whose insertions succeed, and any backend but noop: when a transfer fails,
  -- some file of the list is the one whose copy failed, and IsArchived reports it as archived.
  pub failed_file_skipped :
      IsDatabase H
      → ((f : String) (u : History) → (H.answer u (insert_file f (pos 0) session)).fault ≡ none)
      → (b : Archiver) (root : String) (files : List String) (v : ℤ) (t : History) (m : String)
      → b ≢ noop
      → (archive_files H b root files (some (progress_fn H version session)) v t).0.1 ≡ err m
      → let r = archive_files H b root files (some (progress_fn H version session)) v t in
        (f : String) × (u : History) × Memᴰ f files
        × (copy_of H b root f u ≡ (err m, r.1))
        × ((is_archived H f r.1).0 ≡ true)
  failed_file_skipped db inserted b root files v t m n h =
      let (f, u, member, e) = failed_after_mark b root files v t m n h in
      let marked = insert_file f (pos 0) session ∷ u in
      let kept = stored-copy H b root f f marked (stored-insert f u (inserted f u)) in
      let found = rw e at kept in (f, marked, member, e, rw (is_archived-stored H db) found)
