-- ===== src/Registry/Lookup.antt =====
-- What `NewRegistry` builds (internal/indexer/handler.go).
use cca_go_indexer.Base.{
  ◌≡◌, ap, inl, inr, none, some, List, [], ◌∷◌, arith, All, ◌==◌, ==_self, Bool-cases, Option-cases,
}
use cca_go_indexer.Registry.{EventHandler, HandlerMap, lookup_handler, register, new_registry}
use cca_go_indexer.Types.{Hash}

-- The handlers of the list are found under their identifiers, and what was found before still is.
record IsRegistered (hs : List EventHandler) (m m' : HandlerMap) : Type 0 where
  found : All (λ h. lookup_handler h.event_id m' ≡ some h) hs
  kept :
      (id : Hash) (h : EventHandler) → lookup_handler id m ≡ some h → lookup_handler id m' ≡ some h

lookup_handler-cons :
    (id key : Hash) (h k : EventHandler) (m : HandlerMap)
    → lookup_handler key m ≡ none
    → lookup_handler id m ≡ some k
    → lookup_handler id ((key, h) ∷ m) ≡ some k
unfolding lookup_handler
lookup_handler-cons id key h k m free e = elim (Bool-cases (key == id)) [
  | inl same ↦ let s : key ≡ id = ground arith in cc (ap (λ i. lookup_handler i m) s)
  | inr other ↦ rw other e
]

lookup_handler_self :
    (key : Hash) (h : EventHandler) (m : HandlerMap) → lookup_handler key ((key, h) ∷ m) ≡ some h
unfolding lookup_handler
lookup_handler_self key h m = rw (==_self key)

register-cons :
    (h : EventHandler) (hs : List EventHandler) (m m' : HandlerMap)
    → register (h ∷ hs) m ≡ some m'
    → (lookup_handler h.event_id m ≡ none) × (register hs ((h.event_id, h) ∷ m) ≡ some m')
unfolding register
register-cons h hs m m' e = elim (Option-cases (lookup_handler h.event_id m)) [
  | inl free ↦ (free, rw (free, register) at e)
  | inr (k, taken) ↦ cc (rw (taken, register) at e)
]

register-IsRegistered :
    (hs : List EventHandler) (m m' : HandlerMap) → register hs m ≡ some m' → IsRegistered hs m m'
unfolding register
register-IsRegistered [] m m' e = record {
  found = tt;
  kept = λ id h f. let same : m ≡ m' = ground arith in rw (← same) f;
}
register-IsRegistered (h ∷ hs) m m' e =
    let (free, rest) = register-cons h hs m m' e in
    let r = register-IsRegistered hs ((h.event_id, h) ∷ m) m' rest in
    record {
      found = (r.kept h.event_id h (lookup_handler_self h.event_id h m), r.found);
      kept = λ id k f. r.kept id k (lookup_handler-cons id h.event_id h k m free f);
    }

-- A registry that is built without a panic finds every one of its handlers under that handler's
-- event: no two of them share one.
pub new_registry-found :
    (hs : List EventHandler) (m : HandlerMap)
    → new_registry hs ≡ some m
    → All (λ h. lookup_handler h.event_id m ≡ some h) hs
unfolding new_registry
new_registry-found hs m e = (register-IsRegistered hs [] m e).found
