-- ===== src/Api/Health.antt =====
-- `HealthHandler` (internal/api/handlers/health.go): the probes of liveness and readiness.
use cca_go_indexer.Base.Effect.{Result, ok, err, ◌>>=◌, ◌>>◌}
use cca_go_indexer.Api.{Handler, bytes_body, set_header, write_header, write, stored}
use cca_go_indexer.Text.{codes}
use cca_go_indexer.World.Calls.{Env, Action, exec}
use cca_go_indexer.World.Errors.{Error}

-- `Ping`, which sends an empty statement.
abbrev pub ping : Env → Action (Unit {0})
ping env = exec env (λ db. db)

-- `Health`
unfoldable pub health : Handler (Unit {0})
health = do
  set_header (codes "Cache-Control") (codes "no-store")
  set_header (codes "Content-Type") (codes "application/json")
  write_header 200
  write (bytes_body (codes "{\"status\":\"ok\"}"))

-- `Ready`, after the call of `Ping`.
abbrev pub answer_ready : Result Error (Unit {0}) → Handler (Unit {0})
answer_ready (err e) = do
  write_header 503
  write (bytes_body (codes "{\"status\":\"not_ready\",\"reason\":\"database unreachable\"}"))
answer_ready (ok a) = do write_header 200; write (bytes_body (codes "{\"status\":\"ready\"}"))

-- `Ready`
unfoldable pub ready : Env → Handler (Unit {0})
ready env = do
  set_header (codes "Cache-Control") (codes "no-store")
  set_header (codes "Content-Type") (codes "application/json")
  stored (ping env) >>= answer_ready
