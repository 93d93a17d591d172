-- ===== src/Api/Answers.antt =====
-- What `AuctionHandler.Get` answers (internal/api/handlers/auction.go).
use cca_go_indexer.Base.{
  ℕ, ◌≡◌, refl, sym, ◌⊎◌, inl, inr, true, false, none, some, [], ◌∷◌, find, Bool-cases,
  Option-cases,
}
use cca_go_indexer.Base.Effect.{Ends}
use cca_go_indexer.Api.{Session, Writer, auction_body, get_auction, to_auction_response}
use cca_go_indexer.Store.Auctions.{
  lower_hex, has_address, insert_auction, auction_by_address, auction_by_address-insert_auction,
}
use cca_go_indexer.Text.{Text, to_lower}
use cca_go_indexer.Types.{Auction, Codec}
use cca_go_indexer.World.Calls.{Env, World, query}
use cca_go_indexer.World.Database.{Database}

abbrev pub fresh : Writer
fresh = record { headers = []; status = none; bodies = []; captured = 0 }

-- The session of a request to which nothing was answered yet.
abbrev pub fresh_session : World → Session
fresh_session w = record { writer = fresh; world = w; completed = [] }

module _ ⦃c : Codec⦄ (env : Env) (chain : ℕ) (address : Text) where
  -- What was sent is one of the four answers, and says what it should.
  abbrev pub IsAnswer : World → Writer → Type 0
  IsAnswer w wr =
      ((wr.status ≡ some 400) × (c.is_hex_address address ≡ false))
      ⊎ (((wr.status ≡ some 500) × (env.statement_fails w.now ≡ true))
          ⊎ (((wr.status ≡ some 404) × (auction_by_address chain (to_lower address) w.db ≡ none))
              ⊎ ((a : Auction) × (wr.status ≡ some 200)
                  × (auction_by_address chain (to_lower address) w.db ≡ some a)
                  × (wr.bodies ≡ auction_body (to_auction_response a) ∷ []))))

  -- A request for an auction does not panic and leaves the database alone. The status is 400 only for
  -- what is no address, 500 only if the store fails, 404 only if no auction has the address in lower
  -- case, and 200 only with the one that has it, as the body.
  pub get_auction-IsAnswer :
      (w : World)
      → Ends
          (λ _ s. (s.world.db ≡ w.db) × IsAnswer w s.writer)
          (λ _ _. ⊥)
          (get_auction env chain address (fresh_session w))
  unfolding get_auction query
  get_auction-IsAnswer w = elim (Bool-cases (c.is_hex_address address)) [
    | inr e ↦ rw e (refl, inl (refl, refl))
    | inl e ↦ rw e (elim (Bool-cases (env.statement_fails w.now)) [
      | inl f ↦ rw f (refl, inr (inl (refl, refl)))
      | inr f ↦ rw f (elim (Option-cases (auction_by_address chain (to_lower address) w.db)) [
        | inl g ↦ rw g (refl, inr (inr (inl (refl, refl))))
        | inr (a, g) ↦ rw g (refl, inr (inr (inr (a, refl, refl, refl))))
      ])
    ])
  ]

  -- An auction that was stored under a new address is the answer to a request for its address in any
  -- case, where the store answers.
  pub get_auction-insert_auction :
      (a : Auction) (db : Database) (t : ℕ)
      → a.chain_id ≡ chain
      → c.is_hex_address address ≡ true
      → to_lower address ≡ lower_hex a.auction_address
      → find (has_address a.chain_id (lower_hex a.auction_address)) db.auctions ≡ none
      → env.statement_fails t ≡ false
      → Ends
          (λ _ s.
            (s.writer.status ≡ some 200)
            × (s.writer.bodies ≡ auction_body (to_auction_response a) ∷ []))
          (λ _ _. ⊥)
          (get_auction env chain address
            (fresh_session (record { db = insert_auction a db; now = t })))
  unfolding get_auction query
  get_auction-insert_auction a db t e hex same new answers =
      rw (hex, answers, same, sym e, auction_by_address-insert_auction a db new) (refl, refl)
