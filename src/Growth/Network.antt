-- ===== src/Growth/Network.antt =====
-- Growth of the history under Archive, State and Tesla.
use teslausb_neo.Base.{ℕ, suc, String, ◌≤◌, Option, List, [], ◌∷◌, length, arith}
use teslausb_neo.Base.Int.{ℤ}
use teslausb_neo.Host.{History, Host}
use teslausb_neo.Host.Fallible.{Done}
use teslausb_neo.Growth.Adds.{Adds}
use teslausb_neo.State
use teslausb_neo.State.{count_file}
use teslausb_neo.Notify.{Notifier}
use teslausb_neo.Tesla
use teslausb_neo.Tesla.{WakeKeeper, ble, tessie, webhook, noop}
use teslausb_neo.Archive.Transfer.{Progress, report, transfer_from, transfer}
use teslausb_neo.Archive.Cifs
use teslausb_neo.Archive.Nfs
use teslausb_neo.Archive.Rsync
use teslausb_neo.Archive.Rclone
use teslausb_neo.Archive.Backend
use teslausb_neo.Archive.Backend.{Archiver, cifs, nfs, rsync, rclone}

abbrev pub Speaks : Notifier → Type 0
Speaks k = (title message event : String) → Adds (k.send title message event)

transfer_from-length :
    (copy : String → Done) (p : Option Progress) (i total : ℕ) (fs : List String) (v : ℤ)
    (t : History)
    → ((f : String) → Adds (copy f))
    → ((i : ℕ) (f : String) (v : ℤ) → Adds (report p i total f v))
    → length t ≤ length (transfer_from copy p i total fs v t).1
unfolding transfer_from
transfer_from-length copy p i total [] v t copies reports = omega arith
transfer_from-length copy p i total (f ∷ fs) v t copies reports =
    let r = report p i total f v t in
    ground (
      arith,
      (reports i f v).less t,
      (copies f).less r.1,
      transfer_from-length copy p (suc i) total fs r.0 (copy f r.1).1 copies reports,
    )

module _ (H : Host) where
  pub start-Adds : (w : WakeKeeper) → Adds (Tesla.start H w)
  unfolding Tesla.start
  start-Adds w = record { less = λ t. ground arith }

  pub stop-Adds : (w : WakeKeeper) → Adds (Tesla.stop H w)
  unfolding Tesla.stop
  stop-Adds w = record { less = λ t. ground arith }

  pub mark_archived-Adds : (path : String) (size n : ℤ) → Adds (State.mark_archived H path size n)
  unfolding State.mark_archived
  mark_archived-Adds path size n = record { less = λ t. ground arith }

  pub create_session-Adds : Adds (State.create_session H)
  unfolding State.create_session
  create_session-Adds = record { less = λ t. ground arith }

  pub complete_session-Adds : (id n bytes : ℤ) → Adds (State.complete_session H id n bytes)
  unfolding State.complete_session
  complete_session-Adds id n bytes = record { less = λ t. ground arith }

  pub fail_session-Adds : (id : ℤ) (message : String) → Adds (State.fail_session H id message)
  unfolding State.fail_session
  fail_session-Adds id message = record { less = λ t. ground arith }

  pub list_unarchived-Adds : (fs : List String) → Adds (State.list_unarchived H fs)
  unfolding State.list_unarchived State.is_archived
  list_unarchived-Adds [] = record { less = λ t. omega arith }
  list_unarchived-Adds (f ∷ fs) = record {
    less = λ t. ground (arith, (list_unarchived-Adds fs).less (count_file f ∷ t));
  }

  pub is_reachable-Adds : (a : Archiver) → Adds (Backend.is_reachable H a)
  unfolding Backend.is_reachable Cifs.ping Rclone.is_reachable
  is_reachable-Adds a = record { less = λ t. ground arith }

  pub connect-Adds : (a : Archiver) → Adds (Backend.connect H a)
  unfolding Backend.connect Cifs.connect Nfs.connect
  connect-Adds a = record { less = λ t. ground arith }

  pub disconnect-Adds : (a : Archiver) → Adds (Backend.disconnect H a)
  unfolding Backend.disconnect Cifs.disconnect Nfs.disconnect
  disconnect-Adds a = record { less = λ t. ground arith }

  pub sync_media-Adds :
      (a : Archiver) (dest folder : String) → Adds (Backend.sync_media H a dest folder)
  unfolding Backend.sync_media Cifs.sync_media Nfs.sync_media Rsync.sync_media Rclone.sync_media
      Cifs.sync_from
  sync_media-Adds a dest folder = record { less = λ t. ground arith }

  copy_to-Adds : (prefix root src f : String) → Adds (Cifs.copy_to H prefix root src f)
  unfolding Cifs.copy_to
  copy_to-Adds prefix root src f = record { less = λ t. ground arith }

  rsync_file-Adds : (b : Rsync.Rsync) (src f : String) → Adds (Rsync.copy_file H b src f)
  unfolding Rsync.copy_file
  rsync_file-Adds b src f = record { less = λ t. ground arith }

  rclone_file-Adds : (b : Rclone.Rclone) (src f : String) → Adds (Rclone.copy_file H b src f)
  unfolding Rclone.copy_file
  rclone_file-Adds b src f = record { less = λ t. ground arith }

  pub archive_files-Adds :
      (a : Archiver) (root : String) (fs : List String) (p : Option Progress) (v : ℤ)
      → ((i total : ℕ) (f : String) (v : ℤ) → Adds (report p i total f v))
      → Adds (Backend.archive_files H a root fs p v)
  unfolding Backend.archive_files transfer Cifs.copy_file Nfs.copy_file
  archive_files-Adds (cifs b) root fs p v reports = record {
    less = λ t.
        transfer_from-length _ p 0 (length fs) fs v t (λ f. copy_to-Adds _ _ root f)
          (λ i f v. reports i (length fs) f v);
  }
  archive_files-Adds (nfs b) root fs p v reports = record {
    less = λ t.
        transfer_from-length _ p 0 (length fs) fs v t (λ f. copy_to-Adds _ _ root f)
          (λ i f v. reports i (length fs) f v);
  }
  archive_files-Adds (rsync b) root fs p v reports = record {
    less = λ t.
        transfer_from-length _ p 0 (length fs) fs v t (λ f. rsync_file-Adds b root f)
          (λ i f v. reports i (length fs) f v);
  }
  archive_files-Adds (rclone b) root fs p v reports = record {
    less = λ t.
        transfer_from-length _ p 0 (length fs) fs v t (λ f. rclone_file-Adds b root f)
          (λ i f v. reports i (length fs) f v);
  }
  archive_files-Adds Backend.noop root fs p v reports = record { less = λ t. omega arith }
