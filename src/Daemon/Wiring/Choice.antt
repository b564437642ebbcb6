-- ===== src/Daemon/Wiring/Choice.antt =====
-- Which backend a configuration without warnings chooses.
use teslausb_neo.Base.{◌≡◌, [], ◌==◌, refl, if◌then◌else◌}
use teslausb_neo.Host.{Host}
use teslausb_neo.Config.Types.{Config}
use teslausb_neo.Config.Validate.{validate}
use teslausb_neo.Config.Laws.{validate-nil, BackendReady}
use teslausb_neo.Archive.Backend.{name}
use teslausb_neo.Daemon.Wiring.{build_archive_backend}

named :
    (c : Config)
    → BackendReady c
    → name (build_archive_backend c) ≡ (if c.archive.system == "" then "none" else c.archive.system)
unfolding build_archive_backend name
named c (BackendReady.not_set e) = rw e refl
named c (BackendReady.switched_off e) = rw e refl
named c (BackendReady.cifs e _ _) = rw e refl
named c (BackendReady.rsync e _ _) = rw e refl
named c (BackendReady.nfs e _ _) = rw e refl
named c (BackendReady.rclone e _) = rw e refl

-- Where Validate has no warning, the daemon archives to the system that is set, and to none only
-- where none is set.
pub build_archive_backend-name :
    (H : Host) (c : Config)
    → validate H c ≡ []
    → name (build_archive_backend c) ≡ (if c.archive.system == "" then "none" else c.archive.system)
build_archive_backend-name H c h = named c ((validate-nil H c).0 h).backend
