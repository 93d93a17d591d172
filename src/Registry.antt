-- ===== src/Registry.antt =====
-- `HandlerRegistry` (internal/indexer/handler.go): which handler an event goes to, and the dispatch
-- of a batch of logs. A Go map is an association list; it is read by key, and by `topic_filter`,
-- whose order the node does not regard.
pub mod Groups
pub mod Dispatch
pub mod Lookup
pub mod Collect
pub mod Batches
pub mod Single
use cca_go_indexer.Base.{
  ℕ, zero, suc, Bool, Option, none, some, List, [], ◌∷◌, ◌++◌, map, ◌==◌, if◌then◌else◌, length,
}
use cca_go_indexer.Base.Effect.{pure, raise, ◌>>◌, ◌>>=◌}
use cca_go_indexer.Text.{Text}
use cca_go_indexer.Types.{Hash, Log}
use cca_go_indexer.World.Calls.{Action, wrap}
use cca_go_indexer.World.Errors.{no_topics, batch_handler, handling_log}

-- `EventHandler`; `handle_batch` is there if the handler is a `BatchEventHandler` too.
pub record EventHandler : Type 0 where
  pub event_name : Text
  pub event_id : Hash
  pub handle : ℕ → Log → Action (Unit {0})
  pub handle_batch : Option (ℕ → List Log → Action (Unit {0}))

abbrev pub HandlerMap : Type 0
HandlerMap = List (Hash × EventHandler)

unfoldable pub lookup_handler : Hash → HandlerMap → Option EventHandler
lookup_handler id [] = none
lookup_handler id (e ∷ m) = if e.0 == id then some e.1 else lookup_handler id m

-- The loop of `NewRegistry`; no value for its panic.
unfoldable pub register : List EventHandler → HandlerMap → Option HandlerMap
unfolding lookup_handler
register [] m = some m
register (h ∷ hs) m =
    let rest = register hs ((h.event_id, h) ∷ m) in
    elim (lookup_handler h.event_id m) [ none ↦ rest | some _ ↦ none ]

unfoldable pub new_registry : List EventHandler → Option HandlerMap
unfolding register
new_registry hs = register hs []

unfoldable pub topic_filter : HandlerMap → List (List Hash)
topic_filter m = map (λ e. e.0) m ∷ []

-- `group`
pub record Group : Type 0 where
  pub topic : Hash
  pub logs : List Log

-- `orderIndex` and `groups`
pub record Grouping : Type 0 where
  pub order_index : List (Hash × ℕ)
  pub groups : List Group

pub lookup_index : Hash → List (Hash × ℕ) → Option ℕ
lookup_index t [] = none
lookup_index t (e ∷ m) = if e.0 == t then some e.1 else lookup_index t m

-- `groups[idx].logs = append(groups[idx].logs, l)`
pub append_log : List Group → ℕ → Log → List Group
append_log [] i l = []
append_log (g ∷ gs) zero l = record g { logs = g.logs ++ l ∷ [] } ∷ gs
append_log (g ∷ gs) (suc i) l = g ∷ append_log gs i l

-- The body of the grouping loop, for a log with a first topic.
pub add_at : Option ℕ → Hash → Log → Grouping → Grouping
unfolding append_log
add_at none t l g = record {
  order_index = (t, length g.groups) ∷ g.order_index;
  groups = g.groups ++ record { topic = t; logs = l ∷ [] } ∷ [];
}
add_at (some i) t l g = record g { groups = append_log g.groups i l }

pub add_log : Hash → Log → Grouping → Grouping
unfolding add_at lookup_index
add_log t l g = add_at (lookup_index t g.order_index) t l g

abbrev pub first_topic : Log → Option Hash
first_topic l = elim (l.topics) [ [] ↦ none | t ∷ _ ↦ some t ]

-- The grouping loop; no value where it returns `ErrNoTopics`.
pub collect : List Log → Grouping → Option Grouping
unfolding add_log
collect [] g = some g
collect (l ∷ ls) g = elim (first_topic l) [ none ↦ none | some t ↦ collect ls (add_log t l g) ]

abbrev no_groups : Grouping
no_groups = record { order_index = []; groups = [] }

-- The per-log fallback of the dispatch loop.
unfoldable pub handle_each : EventHandler → ℕ → List Log → Action (Unit {0})
handle_each h chain [] = pure tt
handle_each h chain (l ∷ ls) = do wrap handling_log (h.handle chain l); handle_each h chain ls

handle_group : Option EventHandler → ℕ → List Log → Action (Unit {0})
unfolding handle_each
handle_group none chain ls = pure tt
handle_group (some h) chain ls = elim (h.handle_batch) [
  | some f ↦ wrap batch_handler (f chain ls)
  | none ↦ handle_each h chain ls
]

pub dispatch : HandlerMap → ℕ → List Group → Action (Unit {0})
unfolding handle_group lookup_handler
dispatch m chain [] = pure tt
dispatch m chain (g ∷ gs) = do
  handle_group (lookup_handler g.topic m) chain g.logs
  dispatch m chain gs

-- `HandlerRegistry.HandleLogs`
unfoldable pub handle_logs : HandlerMap → ℕ → List Log → Action (Unit {0})
unfolding collect dispatch
handle_logs m chain [] = pure tt
handle_logs m chain (l ∷ ls) = elim (collect (l ∷ ls) no_groups) [
  | none ↦ raise no_topics
  | some g ↦ dispatch m chain g.groups
]
