-- ===== src/Registry/Single.antt =====
-- What `HandleLogs` does with a batch of one event's logs (internal/indexer/handler.go).
use cca_go_indexer.Base.{ℕ, ◌≡◌, refl, ap, ◌∙◌, none, some, List, [], ◌∷◌, map, All, ==_self}
use cca_go_indexer.Base.Effect.{and_then, pure}
use cca_go_indexer.Registry.{
  EventHandler, HandlerMap, first_topic, handle_each, handle_group, dispatch, lookup_handler,
  handle_logs,
}
use cca_go_indexer.Registry.Batches.{tag_all, handle_logs-groups_of}
use cca_go_indexer.Registry.Groups.{Tagged, logs_with, topics_after, position, group_of, groups_of}
use cca_go_indexer.Types.{Hash, Log}
use cca_go_indexer.World.Calls.{World}

-- The log is one of the event.
abbrev pub HasTopic : Hash → Log → Type 0
HasTopic id l = first_topic l ≡ some id

-- Every log with the one topic.
tag_each : Hash → List Log → List Tagged
tag_each id [] = []
tag_each id (l ∷ ls) = (id, l) ∷ tag_each id ls

tag_all-tag_each :
    (id : Hash) (ls : List Log) → All (HasTopic id) ls → tag_all ls ≡ some (tag_each id ls)
unfolding tag_all tag_each
tag_all-tag_each id [] h = refl
tag_all-tag_each id (l ∷ ls) h = rw (h.0, tag_all-tag_each id ls h.1) refl

topics_after-tag_each :
    (id : Hash) (ls : List Log) → topics_after (id ∷ []) (tag_each id ls) ≡ id ∷ []
unfolding topics_after tag_each position
topics_after-tag_each id [] = refl
topics_after-tag_each id (l ∷ ls) = rw (==_self id, topics_after) (topics_after-tag_each id ls)

logs_with-tag_each : (id : Hash) (ls : List Log) → logs_with id (tag_each id ls) ≡ ls
unfolding logs_with tag_each
logs_with-tag_each id [] = refl
logs_with-tag_each id (l ∷ ls) = rw (==_self id, logs_with-tag_each id ls) refl

-- A batch of one event's logs has one group.
groups_of-tag_each :
    (id : Hash) (l : Log) (ls : List Log)
    → groups_of (tag_each id (l ∷ ls)) ≡ record { topic = id; logs = l ∷ ls } ∷ []
unfolding groups_of tag_each topics_after position
groups_of-tag_each id l ls =
    ap (map (group_of ((id, l) ∷ tag_each id ls))) (topics_after-tag_each id ls)
    ∙ ap (λ (k : List Log). record { topic = id; logs = k } ∷ []) (logs_with-tag_each id (l ∷ ls))

-- The logs of one event go one by one to the handler that is registered for it, where that has no
-- batch path.
pub handle_logs-handle_each :
    (m : HandlerMap) (chain : ℕ) (id : Hash) (h : EventHandler) (ls : List Log) (w : World)
    → lookup_handler id m ≡ some h
    → h.handle_batch ≡ none
    → All (HasTopic id) ls
    → handle_logs m chain ls w ≡ and_then (handle_each h chain ls w) (λ _. pure tt)
unfolding handle_logs handle_each
handle_logs-handle_each m chain id h [] w found plain watched = refl
handle_logs-handle_each m chain id h (l ∷ ls) w found plain watched =
    (handle_logs-groups_of m chain (l ∷ ls) w).1 (tag_each id (l ∷ ls))
      (tag_all-tag_each id (l ∷ ls) watched)
    ∙ ap (λ gs. dispatch m chain gs w) (groups_of-tag_each id l ls)
    ∙ unfold dispatch handle_group in rw (found, plain) refl
