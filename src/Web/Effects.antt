-- ===== src/Web/Effects.antt =====
-- What a request can make the server of `main` do.
use teslausb_neo.Base.{
  String, ◌≡◌, ◌⊎◌, inl, inr, refl, Bool, true, false, Option, none, some, List, [], ◌∷◌, ◌==◌,
  arith, ap, ◌∙◌, Bool-cases, Option-cases, eq_of_test,
}
use teslausb_neo.Host.{now, read_dir, entry_info, serve_file, remove, History, Host}
use teslausb_neo.Host.Io.{M, pure, ask, ◌>>◌}
use teslausb_neo.Web.{WebConfig, Response, handler, file, handle_download, basic_auth}
use teslausb_neo.Web.Reports.{
  Server, handle_status, handle_files, handle_health, handle_sync, handle_sessions, describe_all,
  describe, uptime,
}
use teslausb_neo.Web.Paths.{Filepath, Within, with_path-Within, handle_delete_file-Within}
use teslausb_neo.Web.Server.{
  Request, Route, status, files, download, delete_file, sync, sessions, health, assets,
  register_routes, route_of, handle, pattern_handler, serve,
}

-- The calls between two histories only read: the clock, the directory and its entries, and what
-- lies within the directory under the name.
pub data Reads (H : Host) (dir name : String) (t : History) : History → Type 0 where
  nothing : Reads H dir name t t
  clock : {u : History} → Reads H dir name t u → Reads H dir name t (now ∷ u)
  listing : {u : History} → Reads H dir name t u → Reads H dir name t (read_dir dir ∷ u)
  info :
      {u : History} {child : String}
      → Reads H dir name t u
      → Reads H dir name t (entry_info dir child ∷ u)
  content :
      {u : History} {path : String}
      → Within H dir name path
      → Reads H dir name t u
      → Reads H dir name t (serve_file path ∷ u)

-- The request has the user and the password, where both are configured.
abbrev pub Admitted : WebConfig → Option (String × String) → Type 0
Admitted c credentials =
    ((c.auth_user ≡ "") ⊎ (c.auth_pass ≡ "")) ⊎ (credentials ≡ some (c.auth_user, c.auth_pass))

handler-Admitted :
    (c : WebConfig) (credentials : Option (String × String)) (next : M Response) (t : History)
    → ((handler c credentials next t).1 ≡ t)
      ⊎ Admitted c credentials × (handler c credentials next t ≡ next t)
unfolding handler basic_auth
handler-Admitted c none next t =
    ground (arith, eq_of_test c.auth_user "", eq_of_test c.auth_pass "")
handler-Admitted c (some (user, pass)) next t = ground (
  arith,
  eq_of_test c.auth_user "",
  eq_of_test c.auth_pass "",
  eq_of_test user c.auth_user,
  eq_of_test pass c.auth_pass,
)

route_of-delete_file :
    (b : Bool) (pattern : String)
    → route_of (register_routes b) pattern ≡ some delete_file
    → pattern ≡ "DELETE /api/v1/files"
unfolding route_of register_routes
route_of-delete_file b pattern h = ground (arith, eq_of_test "DELETE /api/v1/files" pattern)

module _ (H : Host) where
  describe_all-Reads :
      (dir name : String) (t : History) (es : List (String × Bool)) (u : History)
      → Reads H dir name t u
      → Reads H dir name t (describe_all H dir es u).1
  unfolding describe_all describe
  describe_all-Reads dir name t [] u h = h
  describe_all-Reads dir name t ((child, true) ∷ es) u h = describe_all-Reads dir name t es u h
  describe_all-Reads dir name t ((child, false) ∷ es) u h =
      describe_all-Reads dir name t es (entry_info dir child ∷ u) (info h)

  handle_files-Reads :
      (s : Server) (name : String) (t : History)
      → Reads H s.config.archive_dir name t (handle_files H s t).1
  unfolding handle_files
  handle_files-Reads s name t = elim (Bool-cases (s.config.archive_dir == "")) [
    | inl e ↦ rw e nothing
    | inr e ↦ elim (Option-cases (H.answer t (read_dir s.config.archive_dir)).fault) [
      | inl f ↦
          rw (e, f)
            (describe_all-Reads s.config.archive_dir name t
              (H.answer t (read_dir s.config.archive_dir)).entries _ (listing nothing))
      | inr (x, f) ↦ rw (e, f) (listing nothing)
    ]
  ]

  module _ (filepath : Filepath H) where
    handle_download-Reads :
        (c : WebConfig) (name : String) (t : History)
        → Reads H c.archive_dir name t (handle_download H c name t).1
    unfolding handle_download
    handle_download-Reads c name t =
        elim (with_path-Within H filepath c name
          (λ path. do ask H (serve_file path); pure (file path)) t) [
            | inl e ↦ rw e nothing
            | inr (path, within, e) ↦ rw e (content within nothing)
          ]

    handle-Reads :
        (route : Route) (s : Server) (r : Request) (t : History)
        → s.state_db ≡ none
        → let t' = (handle H route s r t).1 in
          Reads H s.config.archive_dir r.name t t'
          ⊎ (route ≡ delete_file)
            × ((path : String) × Within H s.config.archive_dir r.name path × (t' ≡ remove path ∷ t))
    unfolding handle handle_status handle_health uptime handle_sync handle_sessions
    handle-Reads status s r t e = inl (clock nothing)
    handle-Reads files s r t e = inl (handle_files-Reads s r.name t)
    handle-Reads download s r t e = inl (handle_download-Reads s.config r.name t)
    handle-Reads delete_file s r t e =
        elim (handle_delete_file-Within H filepath s.config r.name t) [
          | inl h ↦ inl (rw h nothing)
          | inr found ↦ inr (refl, found)
        ]
    handle-Reads sync s r t e = inl nothing
    handle-Reads sessions s r t e = inl (rw e nothing)
    handle-Reads health s r t e = inl (rw e (clock nothing))
    handle-Reads assets s r t e = inl nothing

    module _ (mux : List (String × Route) → Request → Option String) (found : Bool) where
      abbrev chosen : Request → Option String
      chosen r = mux (register_routes found) r

      pattern_handler-Reads :
          (o : Option String) (s : Server) (r : Request) (t : History)
          → s.state_db ≡ none
          → let t' = (pattern_handler H mux found o s r t).1 in
            Reads H s.config.archive_dir r.name t t'
            ⊎ (o ≡ some "DELETE /api/v1/files")
              × ((path : String) × Within H s.config.archive_dir r.name path
                  × (t' ≡ remove path ∷ t))
      unfolding pattern_handler
      pattern_handler-Reads none s r t e = inl nothing
      pattern_handler-Reads (some p) s r t e =
          elim (Option-cases (route_of (register_routes found) p)) [
            | inl d ↦ inl (rw (d, pattern_handler) nothing)
            | inr (route, d) ↦ elim (handle-Reads route s r t e) [
              | inl h ↦ inl (rw (d, pattern_handler) h)
              | inr (q, gone) ↦ inr (
                ap some (route_of-delete_file found p (d ∙ ap some q)),
                rw (d, pattern_handler) gone,
              )
            ]
          ]

      -- Where the server has no state database, as in main, and filepath does what it says,
      -- whatever the mux chooses: a request makes only calls that read, and the contents of a file
      -- only within the archive directory; or it removes exactly one path, was routed to the DELETE
      -- pattern and had the credentials, where they are configured. That path lies directly in the
      -- archive directory, or it is that directory, and then the name is cleaned to a dot.
      pub serve-Reads :
          (s : Server) (r : Request) (t : History)
          → s.state_db ≡ none
          → let t' = (serve H mux found s r t).1 in
            Reads H s.config.archive_dir r.name t t'
            ⊎ Admitted s.config r.credentials
              × (chosen r ≡ some "DELETE /api/v1/files")
              × ((path : String) × Within H s.config.archive_dir r.name path
                  × (t' ≡ remove path ∷ t))
      unfolding serve
      serve-Reads s r t e =
          elim (handler-Admitted s.config r.credentials (pattern_handler H mux found (chosen r) s r)
            t) [
              | inl h ↦ inl (rw h nothing)
              | inr (admitted, h) ↦ rw h (elim (pattern_handler-Reads (chosen r) s r t e) [
                | inl reads ↦ inl reads
                | inr (q, gone) ↦ inr (admitted, q, gone)
              ])
            ]
