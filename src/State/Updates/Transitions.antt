-- ===== src/State/Updates/Transitions.antt =====
-- The transitions of an update relate the states before and after it.
use opencode_beacon.Prelude.{
  String, Bool, true, false, List, [], ◌∷◌, ◌≡◌, refl, filter, ◌==◌, if◌then◌else◌, ◌∙◌,
}
use opencode_beacon.Model.{WireEvent, Snapshot, TransitionSource, StateTransition, live, snapshot}
use opencode_beacon.State.Record.{ServerState, activity_eq}
use opencode_beacon.State.Json.{Json}
use opencode_beacon.State.Reduce.{
  activities, apply_event_with_updates, reconcile_replayed_with_updates, transitions_from,
}
use opencode_beacon.State.Reduce.Transitions.{
  activity_of, activity_in-activities, reported, transitions_exact,
}

-- The one transition from the activity in one state to that in another, if they differ.
abbrev pub change : ServerState → ServerState → TransitionSource → String → List StateTransition
change s t source id =
    if activity_eq (activity_of s id) (activity_of t id)
    then []
    else record {
      session_id = id;
      previous = activity_of s id;
      current = activity_of t id;
      source = source;
    }
      ∷ []

reported-change :
    (s t : ServerState) (source : TransitionSource) (id : String)
    → reported (activities s) (activities t) source id ≡ change s t source id
reported-change s t source id = rw (activity_in-activities s id, activity_in-activities t id) refl

transitions_from-change :
    (s t : ServerState) (source : TransitionSource) (id : String)
    → filter (λ x. x.session_id == id) (transitions_from (activities s) source t)
      ≡ change s t source id
transitions_from-change s t source id =
    transitions_exact (activities s) source t id ∙ reported-change s t source id

module _ (j : Json) (s : ServerState) (id : String) where
  -- After a live event the update reports of each session exactly the change of its activity: one
  -- transition from the old to the new activity if they differ, and none if they do not.
  pub event_transitions_exact :
      (e : WireEvent j.Value)
      → filter (λ t. t.session_id == id) (apply_event_with_updates j s e).0.transitions
        ≡ change s (apply_event_with_updates j s e).1 live id
  unfolding apply_event_with_updates
  event_transitions_exact e = transitions_from-change s (apply_event_with_updates j s e).1 live id

  -- So it does after a reconciliation, over all that the snapshot and the journal changed.
  pub snapshot_transitions_exact :
      (snap : Snapshot) (events : List (WireEvent j.Value)) (initial : Bool)
      (live_ready : List String)
      → filter
          (λ t. t.session_id == id)
          (reconcile_replayed_with_updates j s snap events initial live_ready).0.transitions
        ≡ change s
            (reconcile_replayed_with_updates j s snap events initial live_ready).1
            snapshot
            id
  unfolding reconcile_replayed_with_updates
  snapshot_transitions_exact snap events true live_ready =
      transitions_from-change s (reconcile_replayed_with_updates j s snap events true live_ready).1
        snapshot id
  snapshot_transitions_exact snap events false live_ready =
      transitions_from-change s (reconcile_replayed_with_updates j s snap events false live_ready).1
        snapshot id
