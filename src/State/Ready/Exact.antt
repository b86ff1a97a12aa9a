-- ===== src/State/Ready/Exact.antt =====
-- What taking the ready attention announces and disarms, root by root.
use opencode_beacon.Prelude.{
  String, Bool, true, false, none, List, [], ◌∷◌, ◌≡◌, refl, sym, ◌∙◌, arith, any, count, map, ◌==◌,
  ◌&&◌, not, eqb,
}
use opencode_beacon.Prelude.Order.{str_cmp}
use opencode_beacon.Prelude.Sort.{sort_by, any-sort_by}
use opencode_beacon.Prelude.Maps.{
  Map, contains, set_remove, contains-set_remove, contains-filter, any-contains,
}
use opencode_beacon.Model.{AttentionEvent, ready, TransitionSource}
use opencode_beacon.State.Record.{SessionRecord, ServerState}
use opencode_beacon.State.Attention.{
  PendingKind, pending_permission, pending_question, attention_event, kind_rank, AttentionContext,
}
use opencode_beacon.State.Attention.Once.{announces}
use opencode_beacon.State.Ready.{
  disarm, idle_armed, root_is_effectively_idle, take_ready_attention, disarm_initially_idle_roots,
}

-- Whether an event says that the root is ready.
unfoldable pub says_ready : String → AttentionEvent → Bool
says_ready id a = eqb (kind_rank a.kind) (kind_rank ready) && a.root_session_id == id

contains-sort : (s : List String) (id : String) → contains (sort_by str_cmp s) id ≡ contains s id
contains-sort s id =
    sym (any-contains (sort_by str_cmp s) id)
    ∙ any-sort_by str_cmp (λ j. j == id) s
    ∙ any-contains s id

contains-disarm :
    (ids : List String) (s : ServerState) (id : String)
    → contains (disarm ids s).ready_armed id ≡ (contains s.ready_armed id && not (contains ids id))
unfolding disarm contains
contains-disarm [] s id = ground arith
contains-disarm (i ∷ ids) s id = ground (
  arith,
  contains-disarm ids (record s { ready_armed = set_remove i s.ready_armed }) id,
  contains-set_remove i id s.ready_armed,
)

contains-idle_armed :
    (s : ServerState) (id : String)
    → contains (idle_armed s) id ≡ (contains s.ready_armed id && root_is_effectively_idle s id)
contains-idle_armed s id = contains-filter (root_is_effectively_idle s) s.ready_armed id

-- Exactly the armed roots that are effectively idle lose their arm.
pub armed-take_ready :
    (source : TransitionSource) (s : ServerState) (id : String)
    → contains (take_ready_attention source s).1.ready_armed id
      ≡ (contains s.ready_armed id && not (root_is_effectively_idle s id))
unfolding take_ready_attention
armed-take_ready source s id = ground (
  arith,
  contains-disarm (sort_by str_cmp (idle_armed s)) s id,
  contains-sort (idle_armed s) id,
  contains-idle_armed s id,
)

pub armed-disarm_initially :
    (s : ServerState) (id : String)
    → contains (disarm_initially_idle_roots s).ready_armed id
      ≡ (contains s.ready_armed id && not (root_is_effectively_idle s id))
unfolding disarm_initially_idle_roots
armed-disarm_initially s id =
    ground (arith, contains-disarm (idle_armed s) s id, contains-idle_armed s id)

module _ (m : Map SessionRecord) (context : AttentionContext) where
  abbrev event : String → AttentionEvent
  event id = attention_event m ready id id none context

  any-ready_events :
      (ids : List String) (id : String) → any (says_ready id) (map event ids) ≡ contains ids id
  unfolding any contains says_ready attention_event
  any-ready_events [] id = refl
  any-ready_events (i ∷ ids) id = ground (arith, any-ready_events ids id)

  count-ready_events :
      (k : PendingKind) (request : String) (ids : List String)
      → count (announces k request) (map event ids) ≡ 0
  unfolding count announces attention_event
  count-ready_events k request [] = refl
  count-ready_events pending_permission request (i ∷ ids) =
      omega (arith, count-ready_events pending_permission request ids)
  count-ready_events pending_question request (i ∷ ids) =
      omega (arith, count-ready_events pending_question request ids)

-- Exactly they are announced as ready.
pub ready-take_ready :
    (source : TransitionSource) (s : ServerState) (id : String)
    → any (says_ready id) (take_ready_attention source s).0
      ≡ (contains s.ready_armed id && root_is_effectively_idle s id)
unfolding take_ready_attention
ready-take_ready source s id =
    any-ready_events (disarm (sort_by str_cmp (idle_armed s)) s).sessions
      (record { source = source; initial = false; root_resolved = true })
      (sort_by str_cmp (idle_armed s)) id
    ∙ contains-sort (idle_armed s) id
    ∙ contains-idle_armed s id

-- A ready event announces no request.
pub count-take_ready :
    (source : TransitionSource) (s : ServerState) (k : PendingKind) (request : String)
    → count (announces k request) (take_ready_attention source s).0 ≡ 0
unfolding take_ready_attention
count-take_ready source s k request =
    count-ready_events (disarm (sort_by str_cmp (idle_armed s)) s).sessions
      (record { source = source; initial = false; root_resolved = true }) k request
      (sort_by str_cmp (idle_armed s))
