-- ===== src/Api/Served.antt =====
-- What the server answers, over all of its routes (cmd/api/main.go and internal/api/server.go).
use cca_go_indexer.Base.{
  ℕ, ◌≡◌, refl, sym, inl, inr, Bool, true, false, none, some, [], ◌∷◌, ◌||◌, ◌&&◌, not, ◌==◌, arith,
  find, contains, Bool-cases, Option-cases, if◌then◌else◌,
}
use cca_go_indexer.Base.Effect.{Ends}
use cca_go_indexer.Api.{Session, Handler, auction_body, get_auction, to_auction_response}
use cca_go_indexer.Api.Answers.{fresh_session}
use cca_go_indexer.Api.Health.{health, ready}
use cca_go_indexer.Api.Middleware.{Request, middleware}
use cca_go_indexer.Api.Paths.{
  parts, is_clean, is_plain, auction_path, auction_path-clean, probe-clean,
}
use cca_go_indexer.Api.Routes.{is_get, app_mux, health_mux, is_probe, moved, outer}
use cca_go_indexer.Store.Auctions.{
  lower_hex, has_address, insert_auction, auction_by_address, auction_by_address-insert_auction,
}
use cca_go_indexer.Text.{Text, codes, text_eq, text_eq_iff, to_lower}
use cca_go_indexer.Types.{Auction, Codec}
use cca_go_indexer.World.Calls.{Env, World, exec, query}
use cca_go_indexer.World.Database.{Database}

-- The path of one probe is not that of the other.
text_eq_at : (s : Text) → text_eq s (codes "/health") ≡ true → text_eq s (codes "/ready") ≡ false
text_eq_at s h = rw ((text_eq_iff s (codes "/health")).0 h) refl

module _ ⦃c : Codec⦄ (env : Env) (chain : ℕ) (generated : Text) where
  -- Redirects, the probes and the preflights leave no entry in the log of requests.
  unfoldable pub is_unlogged : Request → Bool
  unfolding is_clean
  is_unlogged r = not (is_clean r.path) || (is_probe r || text_eq r.method (codes "OPTIONS"))

  -- A status was sent that the server knows, a redirect if the path is not clean; the request was logged with it, if it is one to be logged,
  -- and the database is as before.
  abbrev pub IsServed : Request → World → Session → Type 0
  IsServed r w s =
      (code : ℕ) × (s.writer.status ≡ some code)
      × (contains code (200 ∷ 204 ∷ 301 ∷ 400 ∷ 404 ∷ 405 ∷ 500 ∷ 503 ∷ []) ≡ true)
      × ((code == 301) ≡ not (is_clean r.path))
      × (s.completed ≡ (if is_unlogged r then [] else (r.method, r.path, code) ∷ []))
      × (s.world.db ≡ w.db)

  -- Whether the address is one, the store answers and an auction is found.
  logged_get :
      (r : Request) (w : World) (address : Text)
      → is_clean r.path ≡ true
      → is_probe r ≡ false
      → text_eq r.method (codes "OPTIONS") ≡ false
      → is_get r.method ≡ true
      → auction_path (parts r.path) ≡ some address
      → Ends
          (λ _ s. IsServed r w s)
          (λ _ _. ⊥)
          (middleware generated (app_mux env chain) r (fresh_session w))
  unfolding middleware app_mux get_auction query is_unlogged
  logged_get r w address u p o g path = elim (Bool-cases (c.is_hex_address address)) [
    | inr e ↦ rw (u, p, o, path, g, e) (400, refl, refl, refl, refl, refl)
    | inl e ↦ elim (Bool-cases (env.statement_fails w.now)) [
      | inl f ↦ rw (u, p, o, path, g, e, f) (500, refl, refl, refl, refl, refl)
      | inr f ↦ elim (Option-cases (auction_by_address chain (to_lower address) w.db)) [
        | inl none_there ↦
            rw (u, p, o, path, g, e, f, none_there) (404, refl, refl, refl, refl, refl)
        | inr (a, there) ↦ rw (u, p, o, path, g, e, f, there) (200, refl, refl, refl, refl, refl)
      ]
    ]
  ]

  logged_request :
      (r : Request) (w : World)
      → is_clean r.path ≡ true
      → is_probe r ≡ false
      → text_eq r.method (codes "OPTIONS") ≡ false
      → Ends
          (λ _ s. IsServed r w s)
          (λ _ _. ⊥)
          (middleware generated (app_mux env chain) r (fresh_session w))
  logged_request r w u p o = elim (Option-cases (auction_path (parts r.path))) [
    | inl other ↦
        unfold middleware app_mux is_unlogged in
        rw (u, p, o, other) (404, refl, refl, refl, refl, refl)
    | inr (address, path) ↦ elim (Bool-cases (is_get r.method)) [
      | inl g ↦ logged_get r w address u p o g path
      | inr g ↦
          unfold middleware app_mux is_unlogged in
          rw (u, p, o, path, g) (405, refl, refl, refl, refl, refl)
    ]
  ]

  probe :
      (r : Request) (w : World)
      → is_probe r ≡ true
      → Ends (λ _ s. IsServed r w s) (λ _ _. ⊥) (health_mux env chain r (fresh_session w))
  unfolding health_mux health ready exec is_unlogged
  probe r w p =
      let u : is_clean r.path ≡ true = probe-clean r.path p in
      elim (Bool-cases (is_get r.method)) [
        | inl g ↦ elim (Bool-cases (text_eq r.path (codes "/health"))) [
          | inl h ↦ rw (u, p, g, h) (200, refl, refl, refl, refl, refl)
          | inr h ↦ elim (Bool-cases (text_eq r.path (codes "/ready"))) [
            | inl d ↦ elim (Bool-cases (env.statement_fails w.now)) [
              | inl f ↦ rw (u, g, h, d, f) (503, refl, refl, refl, refl, refl)
              | inr f ↦ rw (u, g, h, d, f) (200, refl, refl, refl, refl, refl)
            ]
            | inr d ↦ absurd (ground arith)
          ]
        ]
        | inr g ↦ elim (Bool-cases (text_eq r.path (codes "/health"))) [
          | inl h ↦ rw (u, p, g, h) (405, refl, refl, refl, refl, refl)
          | inr h ↦ elim (Bool-cases (text_eq r.path (codes "/ready"))) [
            | inl d ↦ rw (u, g, h, d) (405, refl, refl, refl, refl, refl)
            | inr d ↦ absurd (ground arith)
          ]
        ]
      ]

  redirect :
      (r : Request) (w : World)
      → is_clean r.path ≡ false
      → Ends (λ _ s. IsServed r w s) (λ _ _. ⊥) (moved r (fresh_session w))
  unfolding moved is_unlogged
  redirect r w u = elim (Bool-cases (text_eq r.method (codes "GET"))) [
    | inl m ↦ elim (Bool-cases (is_get r.method)) [
      | inl g ↦ rw (u, m, g) (301, refl, refl, refl, refl, refl)
      | inr g ↦ rw (u, m, g) (301, refl, refl, refl, refl, refl)
    ]
    | inr m ↦ elim (Bool-cases (is_get r.method)) [
      | inl g ↦ rw (u, m, g) (301, refl, refl, refl, refl, refl)
      | inr g ↦ rw (u, m, g) (301, refl, refl, refl, refl, refl)
    ]
  ]

  served_if :
      (b : Bool) (handler other : Handler (Unit {0})) (r : Request) (w : World)
      → (b ≡ true → Ends (λ _ s. IsServed r w s) (λ _ _. ⊥) (handler (fresh_session w)))
      → (b ≡ false → Ends (λ _ s. IsServed r w s) (λ _ _. ⊥) (other (fresh_session w)))
      → Ends (λ _ s. IsServed r w s) (λ _ _. ⊥) ((if b then handler else other) (fresh_session w))
  served_if true handler other r w f g = f refl
  served_if false handler other r w f g = g refl

  unprobed :
      (r : Request) (w : World)
      → is_clean r.path ≡ true
      → is_probe r ≡ false
      → Ends
          (λ _ s. IsServed r w s)
          (λ _ _. ⊥)
          (middleware generated (app_mux env chain) r (fresh_session w))
  unprobed r w u p = elim (Bool-cases (text_eq r.method (codes "OPTIONS"))) [
    | inl o ↦ unfold middleware is_unlogged in rw (u, p, o) (204, refl, refl, refl, refl, refl)
    | inr o ↦ logged_request r w u p o
  ]

  -- Every request but one with the method CONNECT, whose path begins with a slash and has only letters,
  -- digits, slashes and the signs - . _ ~, is answered without a panic and leaves the database alone. What
  -- is sent is one of the statuses 200, 204, 301, 400, 404, 405, 500 and 503, the status 301 exactly if
  -- the path is not clean, and the log of requests has the request with this very status, or, for such a
  -- redirect, a probe or a preflight, nothing.
  pub outer-IsServed :
      (r : Request) (w : World)
      → is_plain r.path ≡ true
      → text_eq r.method (codes "CONNECT") ≡ false
      → Ends (λ _ s. IsServed r w s) (λ _ _. ⊥) (outer env chain generated r (fresh_session w))
  unfolding outer
  outer-IsServed r w plain other =
      served_if (is_clean r.path)
        (if is_probe r then health_mux env chain r else middleware generated (app_mux env chain) r)
        (moved r) r w
        (λ u.
          served_if (is_probe r) (health_mux env chain r)
            (middleware generated (app_mux env chain) r) r w (probe r w) (unprobed r w u))
        (redirect r w)

  -- The readiness probe answers 503 if the store fails, and 200 otherwise; the liveness probe answers
  -- 200 in any case. Both forbid caching, send no header of the middleware, and are not logged.
  pub outer_probes :
      (r : Request) (w : World)
      → is_get r.method ≡ true
      → is_probe r ≡ true
      → Ends
          (λ _ s.
            (s.writer.status
              ≡ some (
                  if text_eq r.path (codes "/ready") && env.statement_fails w.now
                  then 503
                  else 200))
            × (s.writer.headers
                ≡ (codes "Cache-Control", codes "no-store")
                  ∷ (codes "Content-Type", codes "application/json")
                  ∷ [])
            × (s.completed ≡ []))
          (λ _ _. ⊥)
          (outer env chain generated r (fresh_session w))
  unfolding outer health_mux health ready exec
  outer_probes r w g p =
      let u : is_clean r.path ≡ true = probe-clean r.path p in
      elim (Bool-cases (text_eq r.path (codes "/health"))) [
        | inl h ↦ rw (u, p, g, h, text_eq_at r.path h) (refl, refl, refl)
        | inr h ↦ elim (Bool-cases (text_eq r.path (codes "/ready"))) [
          | inl d ↦ elim (Bool-cases (env.statement_fails w.now)) [
            | inl f ↦ rw (u, g, h, d, f) (refl, refl, refl)
            | inr f ↦ rw (u, g, h, d, f) (refl, refl, refl)
          ]
          | inr d ↦ absurd (ground arith)
        ]
      ]

  -- A GET or HEAD of the path of a stored auction, whose address was new and is written in any case, is
  -- answered with 200 and the auction, through the whole chain, and is logged so.
  pub outer-insert_auction :
      (r : Request) (a : Auction) (db : Database) (t : ℕ) (address : Text)
      → is_probe r ≡ false
      → text_eq r.method (codes "OPTIONS") ≡ false
      → is_get r.method ≡ true
      → auction_path (parts r.path) ≡ some address
      → a.chain_id ≡ chain
      → c.is_hex_address address ≡ true
      → to_lower address ≡ lower_hex a.auction_address
      → find (has_address a.chain_id (lower_hex a.auction_address)) db.auctions ≡ none
      → env.statement_fails t ≡ false
      → Ends
          (λ _ s.
            (s.writer.status ≡ some 200)
            × (s.writer.bodies ≡ auction_body (to_auction_response a) ∷ [])
            × (s.completed ≡ (r.method, r.path, 200) ∷ []))
          (λ _ _. ⊥)
          (outer env chain generated r
            (fresh_session (record { db = insert_auction a db; now = t })))
  unfolding outer middleware app_mux get_auction query
  outer-insert_auction r a db t address p o g path e hex same new answers =
      rw
        (
          auction_path-clean r.path address path,
          p,
          o,
          path,
          g,
          hex,
          answers,
          same,
          sym e,
          auction_by_address-insert_auction a db new,
        )
        (refl, refl, refl)
