-- ===== src/State/Ready.antt =====
-- Ready arms: `normalize_ready_arms`, `arm_busy_roots`, `busy_roots`,
-- `disarm_initially_idle_roots`, `take_ready_attention`, `root_is_effectively_idle`
-- (src/state.rs).
pub mod Exact
use opencode_beacon.Prelude.{
  String, Bool, true, false, none, List, [], ◌∷◌, map, filter, any, not, ◌&&◌, ◌||◌, ◌==◌, is_some,
  is_some_and,
}
use opencode_beacon.Prelude.Order.{str_cmp}
use opencode_beacon.Prelude.Sort.{sort_by}
use opencode_beacon.Prelude.Maps.{Map, lookup, keys, set_remove, set_extend}
use opencode_beacon.Model.{
  SessionStatus, idle, busy, retry, unknown, AttentionEvent, ready, TransitionSource,
}
use opencode_beacon.State.Record.{SessionRecord, ServerState}
use opencode_beacon.State.Root.{resolve_root}
use opencode_beacon.State.Attention.{attention_event}

-- `matches!(status, Busy | Retry { .. })` and `matches!(status, Idle | Unknown)`
abbrev pub is_active : SessionStatus → Bool
is_active busy = true
is_active (retry attempt message next) = true
is_active idle = false
is_active unknown = false

abbrev pub is_quiet : SessionStatus → Bool
is_quiet idle = true
is_quiet unknown = true
is_quiet busy = false
is_quiet (retry attempt message next) = false

-- `record.metadata_known && record.parent_id.is_none()`
abbrev pub is_root_record : SessionRecord → Bool
is_root_record r = r.metadata_known && not (is_some r.parent_id)

unfoldable pub normalize_ready_arms : ServerState → ServerState
unfolding filter lookup
normalize_ready_arms s = record s {
  ready_armed = filter (λ id. is_some_and (lookup id s.sessions) is_root_record) s.ready_armed;
}

unfoldable pub busy_roots : Map SessionRecord → List String
unfolding filter
busy_roots m = keys (filter (λ e. is_root_record e.1 && is_active e.1.status) m)

unfoldable pub arm_busy_roots : ServerState → ServerState
unfolding busy_roots set_extend
arm_busy_roots s = record s { ready_armed = set_extend (busy_roots s.sessions) s.ready_armed }

abbrev values : Map String → List String
values = map (λ e. e.1)

unfoldable pub root_is_effectively_idle : ServerState → String → Bool
unfolding lookup any resolve_root
root_is_effectively_idle s root_id =
    let awaits = λ (subject_id : String). (resolve_root s.sessions subject_id).0 == root_id in
    is_some_and (lookup root_id s.sessions) (λ r. is_quiet r.status)
    && not (any awaits (values s.permissions) || any awaits (values s.questions))

-- `for id in ids { self.ready_armed.remove(id) }`
unfoldable pub disarm : List String → ServerState → ServerState
unfolding set_remove
disarm [] s = s
disarm (id ∷ ids) s = disarm ids (record s { ready_armed = set_remove id s.ready_armed })

-- The armed roots that are effectively idle.
abbrev pub idle_armed : ServerState → List String
idle_armed s = filter (root_is_effectively_idle s) s.ready_armed

unfoldable pub disarm_initially_idle_roots : ServerState → ServerState
unfolding disarm filter root_is_effectively_idle
disarm_initially_idle_roots s = disarm (idle_armed s) s

unfoldable pub take_ready_attention :
    TransitionSource → ServerState → List AttentionEvent × ServerState
unfolding disarm filter root_is_effectively_idle sort_by attention_event
take_ready_attention source s =
    let roots = sort_by str_cmp (idle_armed s) in
    let s' = disarm roots s in
    let event = λ (id : String).
      attention_event s'.sessions ready id id none
        (record { source = source; initial = false; root_resolved = true }) in
    (map event roots, s')
