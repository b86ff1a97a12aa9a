-- ===== src/State/Updates/Ready.antt =====
-- The ready announcements of a live event and of a reconciliation, root by root.
use opencode_beacon.Prelude.{
  String, false, List, ◌++◌, ◌≡◌, refl, arith, any, not, ◌&&◌, ◌||◌, ap, any-append,
}
use opencode_beacon.Prelude.Maps.{contains}
use opencode_beacon.Prelude.Sort.{sort_by, any-sort_by}
use opencode_beacon.Model.{WireEvent, live, AttentionEvent, TransitionSource}
use opencode_beacon.State.Record.{ServerState}
use opencode_beacon.State.Attention.{attention_order}
use opencode_beacon.State.Ready.{
  normalize_ready_arms, arm_busy_roots, root_is_effectively_idle, take_ready_attention,
}
use opencode_beacon.State.Ready.Exact.{says_ready, armed-take_ready, ready-take_ready}
use opencode_beacon.State.Frame.{SameData, take_ready-SameData, announce_live-SameData, trans}
use opencode_beacon.State.Json.{Json}
use opencode_beacon.State.Reduce.{
  announce_live, apply_event_core, apply_event_with_updates, event_kind,
}
use opencode_beacon.State.Invariant.{IsWellFormed}
use opencode_beacon.State.Invariant.Steps.{apply_kind-IsWellFormed}
use opencode_beacon.State.Updates.Quiet.{
  is_known_root, is_busy_root, contains-armed, idle-SameData, busy_is_not_idle, kept_arms,
  announce_live-says_nothing,
}

pub roots-SameData :
    {s t : ServerState}
    → SameData s t
    → (id : String)
    → (is_known_root s id ≡ is_known_root t id) × (is_busy_root s id ≡ is_busy_root t id)
unfolding is_known_root is_busy_root
roots-SameData same id = (rw same.sessions refl, rw same.sessions refl)

-- Taking the ready attention after requests that say nothing of readiness.
pub taken_ready :
    (source : TransitionSource) (armed s' : ServerState) (requests : List AttentionEvent)
    (id : String)
    → SameData s' armed
    → s'.ready_armed ≡ armed.ready_armed
    → any (says_ready id) requests ≡ false
    → (any
          (says_ready id)
          (sort_by attention_order (requests ++ (take_ready_attention source s').0))
        ≡ (contains armed.ready_armed id
            && root_is_effectively_idle (take_ready_attention source s').1 id))
      × (contains (take_ready_attention source s').1.ready_armed id ≡ (
          contains armed.ready_armed id
          && not (root_is_effectively_idle (take_ready_attention source s').1 id)))
taken_ready source armed s' requests id same arms silent = ground (
  arith,
  any-sort_by attention_order (says_ready id) (requests ++ (take_ready_attention source s').0),
  any-append (says_ready id) requests (take_ready_attention source s').0,
  ready-take_ready source s' id,
  armed-take_ready source s' id,
  idle-SameData (take_ready-SameData source s') id,
  ap (λ arms. contains arms id) arms,
)

module _ (j : Json) (s : ServerState) (e : WireEvent j.Value) (id : String)
    (v : IsWellFormed s) where
  abbrev after : ServerState
  after = (apply_event_with_updates j s e).1

  abbrev applied : ServerState
  applied = (apply_event_core j s e).0

  abbrev armed : ServerState
  armed = arm_busy_roots (normalize_ready_arms applied)

  armed_before :
      contains armed.ready_armed id
      ≡ (is_busy_root applied id || (contains s.ready_armed id && is_known_root applied id))
  unfolding apply_event_core
  armed_before =
      let w = apply_kind-IsWellFormed j s e.properties v (event_kind e.kind) in
      ground (
        arith,
        contains-armed applied id w.sessions_unique,
        kept_arms j s (event_kind e.kind) e.properties id,
      )

  armed-SameData : SameData armed applied
  unfolding normalize_ready_arms arm_busy_roots
  armed-SameData = record { sessions = refl; permissions = refl; questions = refl }

  after-SameData : SameData after applied
  unfolding apply_event_with_updates
  after-SameData =
      let requests = announce_live j armed (apply_event_core j s e).1 in
      trans (take_ready-SameData live requests.1)
        (trans (announce_live-SameData j armed (apply_event_core j s e).1) armed-SameData)

  facts :
      (any (says_ready id) (apply_event_with_updates j s e).0.attention
        ≡ (contains armed.ready_armed id && root_is_effectively_idle after id))
      × (contains after.ready_armed id
          ≡ (contains armed.ready_armed id && not (root_is_effectively_idle after id)))
  unfolding apply_event_with_updates
  facts =
      let requests = announce_live j armed (apply_event_core j s e).1 in
      let (silent, arms) = announce_live-says_nothing j armed (apply_event_core j s e).1 id in
      taken_ready live armed requests.1 requests.0 id
        (announce_live-SameData j armed (apply_event_core j s e).1) arms silent

  -- A live event says that a root is ready exactly if the root was armed before and is, after the
  -- event, a known session without a parent that is quiet, with no request pending below it.
  pub ready_exact :
      any (says_ready id) (apply_event_with_updates j s e).0.attention
      ≡ (contains s.ready_armed id && is_known_root after id && root_is_effectively_idle after id)
  ready_exact =
      ground
        (arith, facts, armed_before, roots-SameData after-SameData id, busy_is_not_idle after id)

  -- After the event exactly those roots are armed that are busy or retrying, or that were armed,
  -- are still known roots, and are not quiet yet.
  pub armed_exact : contains after.ready_armed id ≡ (
      is_busy_root after id
      || (contains s.ready_armed id
          && is_known_root after id
          && not (root_is_effectively_idle after id)))
  armed_exact =
      ground
        (arith, facts, armed_before, roots-SameData after-SameData id, busy_is_not_idle after id)
