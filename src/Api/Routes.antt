-- ===== src/Api/Routes.antt =====
-- The multiplexers of `run` in cmd/api/main.go and of `NewServer` in internal/api/server.go, for paths
-- without percent escapes and methods other than CONNECT, whose paths are not cleaned.
use cca_go_indexer.Base.{ℕ, Bool, ◌||◌, Option, none, some, [], ◌∷◌, ◌++◌, if◌then◌else◌}
use cca_go_indexer.Base.Effect.{◌>>◌, pure}
use cca_go_indexer.Api.{Handler, bytes_body, set_header, write_header, write, get_auction}
use cca_go_indexer.Api.Health.{health, ready}
use cca_go_indexer.Api.Middleware.{Request, Server, middleware}
use cca_go_indexer.Api.Paths.{parts, clean_path, is_clean, auction_path}
use cca_go_indexer.Text.{Text, codes, text_eq}
use cca_go_indexer.Types.{Codec}
use cca_go_indexer.World.Calls.{Env}

-- `http.Error`, which ends the line, `http.NotFound` and what a `ServeMux` answers to a method that a path does not have.
abbrev pub http_error : Text → ℕ → Handler (Unit {0})
http_error message code = do
  set_header (codes "Content-Type") (codes "text/plain; charset=utf-8")
  set_header (codes "X-Content-Type-Options") (codes "nosniff")
  write_header code
  write (bytes_body (message ++ 10 ∷ []))

abbrev pub not_found : Handler (Unit {0})
not_found = http_error (codes "404 page not found") 404

abbrev pub method_not_allowed : Handler (Unit {0})
method_not_allowed = do
  set_header (codes "Allow") (codes "GET, HEAD")
  http_error (codes "Method Not Allowed") 405

-- A pattern with the method GET is one for HEAD too.
unfoldable pub is_get : Text → Bool
is_get m = text_eq m (codes "GET") || text_eq m (codes "HEAD")

abbrev pub on_get : Request → Handler (Unit {0}) → Handler (Unit {0})
on_get r handler = if is_get r.method then handler else method_not_allowed

-- What a `ServeMux` answers to a path that is not clean (`http.Redirect`), for a path of plain characters.
unfoldable pub moved : Request → Handler (Unit {0})
moved r = do
  set_header (codes "Location") (clean_path r.path)
  (if is_get r.method
      then set_header (codes "Content-Type") (codes "text/html; charset=utf-8")
      else pure tt)
  write_header 301
  (if text_eq r.method (codes "GET")
      then write (
          bytes_body (
            codes "<a href=\""
            ++ clean_path r.path
            ++ codes "\">Moved Permanently</a>."
            ++ 10 ∷ 10 ∷ []))
      else pure tt)

-- The paths of the probes, in `NewServer`.
abbrev pub is_probe : Request → Bool
is_probe r = text_eq r.path (codes "/health") || text_eq r.path (codes "/ready")

module _ ⦃c : Codec⦄ (env : Env) (chain : ℕ) where
  abbrev pub serve_auction : Request → Option Text → Handler (Unit {0})
  serve_auction r none = not_found
  serve_auction r (some address) = on_get r (get_auction env chain address)

  -- `appMux` and `healthMux`
  unfoldable pub app_mux : Server
  unfolding parts auction_path
  app_mux r = serve_auction r (auction_path (parts r.path))

  unfoldable pub health_mux : Server
  health_mux r =
      if text_eq r.path (codes "/health")
      then on_get r health
      else (if text_eq r.path (codes "/ready") then on_get r (ready env) else not_found)

  -- `NewServer`: its `outer`, which redirects before it routes.
  unfoldable pub outer : Text → Server
  unfolding is_clean moved app_mux health_mux
  outer generated r =
      if is_clean r.path
      then (if is_probe r then health_mux r else middleware generated app_mux r)
      else moved r
