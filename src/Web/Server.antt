-- ===== src/Web/Server.antt =====
-- The routes, and what the server does with a request.
use teslausb_neo.Base.{String, Bool, Option, none, some, List, [], ◌∷◌, ◌==◌, if◌then◌else◌}
use teslausb_neo.Host.{Host}
use teslausb_neo.Host.Io.{M, pure}
use teslausb_neo.Web.{Response, asset, unrouted, handler, handle_download, handle_delete_file}
use teslausb_neo.Web.Reports.{
  Server, handle_status, handle_files, handle_health, handle_sync, handle_sessions,
}

pub record Request : Type 0 where
  pub method : String
  pub path : String
  pub name : String  -- the query parameter, empty if it is missing
  pub credentials : Option (String × String)

pub data Route : Type 0 where
  status files download delete_file sync sessions health assets : Route

-- registerRoutes; the embedded files are served where fs.Sub finds them.
unfoldable pub register_routes : Bool → List (String × Route)
register_routes assets_found =
    ("GET /api/v1/status", status)
    ∷ ("GET /api/v1/files", files)
    ∷ ("GET /api/v1/files/download", download)
    ∷ ("DELETE /api/v1/files", delete_file)
    ∷ ("POST /api/v1/sync", sync)
    ∷ ("GET /api/v1/archive/sessions", sessions)
    ∷ ("GET /api/v1/health", health)
    ∷ (if assets_found then ("/", assets) ∷ [] else [])

unfoldable pub route_of : List (String × Route) → String → Option Route
route_of [] pattern = none
route_of ((p, r) ∷ rest) pattern = if p == pattern then some r else route_of rest pattern

module _ (H : Host) where
  unfoldable pub handle : Route → Server → Request → M Response
  handle status s r = handle_status H s
  handle files s r = handle_files H s
  handle download s r = handle_download H s.config r.name
  handle delete_file s r = handle_delete_file H s.config r.name
  handle sync s r = handle_sync
  handle sessions s r = handle_sessions s
  handle health s r = handle_health H s
  handle assets s r = pure asset

  -- The mux of net/http chooses one of the registered patterns for a request, or none.
  module _ (mux : List (String × Route) → Request → Option String) (assets_found : Bool) where
    unfoldable pub pattern_handler : Option String → Server → Request → M Response
    unfolding handle route_of
    pattern_handler none s r = pure unrouted
    pattern_handler (some pattern) s r = elim (route_of (register_routes assets_found) pattern) [
      | none ↦ pure unrouted
      | some route ↦ handle route s r
    ]

    -- Server.handler() on a request.
    unfoldable pub serve : Server → Request → M Response
    unfolding pattern_handler
    serve s r =
        handler s.config r.credentials (pattern_handler (mux (register_routes assets_found) r) s r)
