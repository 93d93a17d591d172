-- ===== src/Api/Middleware.antt =====
-- The chain of middleware around the application (internal/api/middleware.go and server.go).
use cca_go_indexer.Base.{
  ℕ, ◌≡◌, refl, true, false, Option, none, some, [], if◌then◌else◌, ◌++◌, ◌∷◌,
}
use cca_go_indexer.Base.Effect.{Result, ok, err, Ends, ◌>>◌}
use cca_go_indexer.Api.{
  Session, Panic, Handler, set_header, write_header, write_error, first_status,
}
use cca_go_indexer.Text.{Text, codes, text_eq}

-- What the chain reads of an `http.Request`, and the identifier in its context.
pub record Request : Type 0 where
  pub method : Text
  pub path : Text
  pub id_header : Text
  pub context_id : Option Text

abbrev pub Server : Type 0
Server = Request → Handler (Unit {0})

-- `cors`
abbrev pub cors : Server → Server
cors next r = do
  set_header (codes "Access-Control-Allow-Origin") (codes "*")
  set_header (codes "Access-Control-Allow-Methods") (codes "GET, OPTIONS")
  set_header (codes "Access-Control-Allow-Headers") (codes "Content-Type, X-Request-ID")
  if text_eq r.method (codes "OPTIONS") then write_header 204 else next r

-- `requestID`; `generated` is what `generateID` would return.
abbrev pub id_of : Text → Request → Text
id_of generated r = if text_eq r.id_header [] then generated else r.id_header

abbrev pub request_id : Text → Server → Server
request_id generated next r = do
  set_header (codes "X-Request-ID") (id_of generated r)
  next (record r { context_id = some (id_of generated r) })

-- `recovery`
abbrev pub recover_outcome : Result Panic (Unit {0}) × Session → Result Panic (Unit {0}) × Session
recover_outcome (ok a, s) = (ok a, s)
recover_outcome (err p, s) =
    write_error 500 (codes "internal_error") (codes "internal server error") s

abbrev pub recovery : Server → Server
recovery next r s = recover_outcome (next r s)

-- `requestLogger`: it logs a request that ends without a panic, with the status that its
-- `statusWriter` has captured.
abbrev pub logged : Request → Session → Session
logged r s = record s { completed = s.completed ++ (r.method, r.path, s.writer.captured) ∷ [] }

abbrev pub log_outcome :
    Request → Result Panic (Unit {0}) × Session → Result Panic (Unit {0}) × Session
log_outcome r (ok a, s) = (ok a, logged r s)
log_outcome r (err p, s) = (err p, s)

abbrev pub wrapped : Session → Session
wrapped s = record s { writer = record s.writer { captured = 200 } }

abbrev pub request_logger : Server → Server
request_logger next r s = log_outcome r (next r (wrapped s))

-- The handler that `NewServer` puts around the application.
unfoldable pub middleware : Text → Server → Server
middleware generated app = cors (request_id generated (recovery (request_logger app)))

-- After a panic nothing that was sent before is taken back: a status stays, and an error body follows.
abbrev pub Recovered : Session → Session → Type 0
Recovered s s' = (s'.world ≡ s.world) × (s'.writer.status ≡ first_status s.writer.status 500)

first_status_again : (o : Option ℕ) (a b : ℕ) → first_status (first_status o a) b ≡ first_status o a
first_status_again none a b = refl
first_status_again (some n) a b = refl

recover-Ends :
    (r : Request) (o : Result Panic (Unit {0}) × Session)
    → Ends
        (λ _ s'. Ends (λ _ s. s' ≡ logged r s) (λ _ s. Recovered s s') o)
        (λ _ _. ⊥)
        (recover_outcome (log_outcome r o))
recover-Ends r (ok a, s) = refl
recover-Ends r (err p, s) = (refl, first_status_again s.writer.status 500 200)

-- The request and the session with which the application is called.
abbrev pub identified : Text → Request → Request
identified generated r = record r { context_id = some (id_of generated r) }

abbrev pub entered : Text → Request → Session → Session
entered generated r s =
    wrapped
      ((do
        set_header (codes "Access-Control-Allow-Origin") (codes "*")
        set_header (codes "Access-Control-Allow-Methods") (codes "GET, OPTIONS")
        set_header (codes "Access-Control-Allow-Headers") (codes "Content-Type, X-Request-ID")
        set_header (codes "X-Request-ID") (id_of generated r))
        s).1

-- The chain never panics, whatever the application does. For a request that is no preflight it ends as
-- the application does, that is called with the request's identifier, and logs the request; or, where
-- the application panics, with the status 500 if none was sent before.
pub middleware-Ends :
    (generated : Text) (app : Server) (r : Request) (s : Session)
    → text_eq r.method (codes "OPTIONS") ≡ false
    → Ends
        (λ _ s'.
          Ends
            (λ _ s0. s' ≡ logged r s0)
            (λ _ s0. Recovered s0 s')
            (app (identified generated r) (entered generated r s)))
        (λ _ _. ⊥)
        (middleware generated app r s)
unfolding middleware
middleware-Ends generated app r s e =
    rw e
      (recover-Ends (identified generated r) (app (identified generated r) (entered generated r s)))

-- A preflight request is answered with the status 204 and no body, and the application is not called.
pub middleware_preflight :
    (generated : Text) (app app' : Server) (r : Request) (s : Session)
    → text_eq r.method (codes "OPTIONS") ≡ true
    → (middleware generated app r s ≡ middleware generated app' r s)
      × ((middleware generated app r s).1.writer.bodies ≡ s.writer.bodies)
      × ((middleware generated app r s).1.writer.status ≡ first_status s.writer.status 204)
unfolding middleware
middleware_preflight generated app app' r s e = rw e (refl, refl, refl)
