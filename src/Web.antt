-- ===== src/Web.antt =====
-- internal/web/server.go: who may use the server, and which file a request can name. The mux and
-- the encoding of answers are net/http's and encoding/json's; a response is its status with the
-- value or the file that it carries.
pub mod Paths
pub mod Reports
pub mod Server
pub mod Effects
use teslausb_neo.Base.{
  String, Bool, false, ◌||◌, not, Option, none, some, List, [], ◌∷◌, ◌==◌, starts_with,
  if◌then◌else◌, ℕ,
}
use teslausb_neo.Base.Int.{ℤ}
use teslausb_neo.Host.{remove, serve_file, Answer, Host}
use teslausb_neo.Host.Io.{M, pure, ask, ◌>>◌}
use teslausb_neo.Host.Fallible.{Result, ok, err}

pub record WebConfig : Type 0 where
  pub archive_dir : String
  pub auth_user : String
  pub auth_pass : String

pub record StatusInfo : Type 0 where
  pub state : String
  pub uptime : String
  pub timestamp : ℤ

pub record FileInfo : Type 0 where
  pub name : String
  pub size : ℤ
  pub mod_time : ℤ

pub record SessionInfo : Type 0 where
  pub id : ℤ
  pub started_at : ℤ
  pub ended_at : ℤ
  pub files : ℤ
  pub bytes : ℤ
  pub status : String

pub data Response : Type 0 where
  -- writeJSON of a map, of a status, of files and of sessions
  json : ℕ → List (String × String) → Response
  status_json : ℕ → StatusInfo → Response
  files_json : ℕ → List FileInfo → Response
  sessions_json : ℕ → List SessionInfo → Response
  file : String → Response  -- http.ServeFile
  asset : Response  -- http.FileServer over the embedded files
  unrouted : Response  -- the mux has no handler
  unauthorized : Response  -- 401 with the WWW-Authenticate header

-- basicAuth; `credentials` is r.BasicAuth(). The comparison in constant time is an equality.
unfoldable pub basic_auth : WebConfig → Option (String × String) → M Response → M Response
basic_auth s none next = pure unauthorized
basic_auth s (some (user, pass)) next =
    if not (user == s.auth_user) || not (pass == s.auth_pass) then pure unauthorized else next

-- handler, around what the mux does with the request
unfoldable pub handler : WebConfig → Option (String × String) → M Response → M Response
unfolding basic_auth
handler s credentials next =
    if s.auth_user == "" || s.auth_pass == "" then next else basic_auth s credentials next

module _ (H : Host) where
  -- From the absolute base directory on.
  unfoldable pub path_under : String → String → Result String
  path_under abs_base cleaned =
      let candidate = H.join (abs_base ∷ cleaned ∷ []) in
      elim (H.rel abs_base candidate) [
        | none ↦ err "path resolution failed"
        | some rel ↦
            if starts_with rel ".." then err "path escapes base directory" else ok candidate
      ]

  -- The texts of the errors of filepath.Abs and filepath.Rel are left out: no caller reads them.
  unfoldable pub validate_path : String → String → Result String
  unfolding path_under
  validate_path base_dir requested =
      let cleaned = H.clean requested in
      if H.has_part cleaned "/" || starts_with cleaned ".."
      then err "invalid path: contains directory traversal"
      else elim (H.abs base_dir) [
        | none ↦ err "invalid base directory"
        | some abs_base ↦ path_under abs_base cleaned
      ]

  -- The part of a handler that reads the name parameter, empty if it is missing.
  unfoldable pub with_path : WebConfig → String → (String → M Response) → M Response
  unfolding validate_path
  with_path s name next =
      if name == ""
      then pure (json 400 (("error", "missing name parameter") ∷ []))
      else elim (validate_path s.archive_dir name) [
        | err _ ↦ pure (json 400 (("error", "invalid file path") ∷ []))
        | ok path ↦ next path
      ]

  unfoldable pub handle_download : WebConfig → String → M Response
  unfolding with_path
  handle_download s name = with_path s name (λ path. do ask H (serve_file path); pure (file path))

  removed : Answer → Response
  removed a = elim a.fault [
    | none ↦ json 200 (("status", "deleted") ∷ [])
    | some f ↦
        if f.not_exist
        then json 404 (("error", "file not found") ∷ [])
        else json 500 (("error", "failed to delete file") ∷ [])
  ]

  unfoldable pub remove_path : String → M Response
  unfolding removed
  remove_path path t = let (a, t') = ask H (remove path) t in (removed a, t')

  unfoldable pub handle_delete_file : WebConfig → String → M Response
  unfolding with_path remove_path
  handle_delete_file s name = with_path s name remove_path
