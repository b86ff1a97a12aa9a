-- ===== src/State/Updates.antt =====
-- What an update announces: each request once, and each root that becomes quiet once.
pub mod Initial
pub mod Journal
pub mod Quiet
pub mod Ready
pub mod Snapshots
pub mod Transitions
use opencode_beacon.State.Invariant.Steps.{candidate-IsWellFormed}
use opencode_beacon.Prelude.{
  ◌+◌, String, Option, none, some, ◌++◌, ◌≡◌, arith, count, count-append, List, Bool, ◌∷◌, ◌≤◌, [],
  true, false,
}
use opencode_beacon.Prelude.Sort.{count-sort_by}
use opencode_beacon.Model.{WireEvent, live, Snapshot, AttentionEvent, snapshot}
use opencode_beacon.State.Record.{ServerState}
use opencode_beacon.State.Attention.{
  PendingKind, NewRequest, attention_order, new_snapshot_request_attention,
}
use opencode_beacon.State.Attention.Once.{announces, was_seen, once_live, once_snapshot}
use opencode_beacon.State.Ready.{normalize_ready_arms, arm_busy_roots, take_ready_attention}
use opencode_beacon.State.Ready.Exact.{count-take_ready}
use opencode_beacon.State.Json.{Json}
use opencode_beacon.State.Reduce.{
  announce_live, apply_event_core, apply_event_with_updates, reconcile_replayed_with_updates,
  reconcile_candidate,
}
use opencode_beacon.State.Seen.{
  seen-SameSeen, take_ready-SameSeen, apply_event_core-SameSeen, disarm_initially-SameSeen,
  candidate-SameSeen,
}

module _ (j : Json) (k : PendingKind) (id : String) where
  open j use {Value}

  once_announce_live :
      (s : ServerState) (r : Option NewRequest)
      → count (announces k id) (announce_live j s r).0 + was_seen k id s
        ≡ was_seen k id (announce_live j s r).1
  unfolding announce_live count
  once_announce_live s none = omega arith
  once_announce_live s (some r) = once_live k id s r

  -- A live event announces a request exactly when it adds its identifier to the seen ones.
  pub apply_event_once :
      (s : ServerState) (event : WireEvent Value)
      → count (announces k id) (apply_event_with_updates j s event).0.attention + was_seen k id s
        ≡ was_seen k id (apply_event_with_updates j s event).1
  unfolding apply_event_with_updates normalize_ready_arms arm_busy_roots
  apply_event_once s event =
      let applied = apply_event_core j s event in
      let armed = arm_busy_roots (normalize_ready_arms applied.0) in
      let requests = announce_live j armed applied.1 in
      let ready = take_ready_attention live requests.1 in
      ground (
        arith,
        count-sort_by attention_order (announces k id) (requests.0 ++ ready.0),
        count-append (announces k id) requests.0 ready.0,
        count-take_ready live requests.1 k id,
        once_announce_live armed applied.1,
        seen-SameSeen k (take_ready-SameSeen live requests.1),
        seen-SameSeen k (apply_event_core-SameSeen j s event),
      )

  -- So does a reconciliation.
  pub reconcile_once :
      (s : ServerState) (snap : Snapshot) (events : List (WireEvent Value)) (initial : Bool)
      (live_ready : List String)
      → count
            (announces k id)
            (reconcile_replayed_with_updates j s snap events initial live_ready).0.attention
          + was_seen k id s
        ≡ was_seen k id (reconcile_replayed_with_updates j s snap events initial live_ready).1
  unfolding reconcile_replayed_with_updates count
  reconcile_once s snap events true live_ready =
      let candidate = reconcile_candidate j s snap events live_ready in
      let requests = new_snapshot_request_attention true candidate in
      let v = candidate-IsWellFormed j s snap events live_ready in
      ground (
        arith,
        count-sort_by attention_order (announces k id) (requests.0 ++ []),
        count-append (announces k id) requests.0 [],
        once_snapshot k true id candidate v.permissions_unique v.questions_unique,
        seen-SameSeen k (disarm_initially-SameSeen requests.1),
        seen-SameSeen k (candidate-SameSeen j s snap events live_ready),
      )
  reconcile_once s snap events false live_ready =
      let candidate = reconcile_candidate j s snap events live_ready in
      let requests = new_snapshot_request_attention false candidate in
      let ready = take_ready_attention snapshot requests.1 in
      let v = candidate-IsWellFormed j s snap events live_ready in
      ground (
        arith,
        count-sort_by attention_order (announces k id) (requests.0 ++ ready.0),
        count-append (announces k id) requests.0 ready.0,
        count-take_ready snapshot requests.1 k id,
        once_snapshot k false id candidate v.permissions_unique v.questions_unique,
        seen-SameSeen k (take_ready-SameSeen snapshot requests.1),
        seen-SameSeen k (candidate-SameSeen j s snap events live_ready),
      )

-- What a connection feeds to the reducer: live events, and snapshots with the events journaled
-- since they were requested.
pub data Input (V : Type 0) : Type 0 where
  event : WireEvent V → Input V
  reconciled : Snapshot → List (WireEvent V) → Bool → List String → Input V

module _ (j : Json) where
  open j use {Value}

  unfoldable pub feed : ServerState → Input Value → List AttentionEvent × ServerState
  feed s (event e) = let (update, s') = apply_event_with_updates j s e in (update.attention, s')
  feed s (reconciled snap events initial live_ready) =
      let (update, s') = reconcile_replayed_with_updates j s snap events initial live_ready in
      (update.attention, s')

  -- All the attention events of a run, and its last state.
  unfoldable pub run : ServerState → List (Input Value) → List AttentionEvent × ServerState
  unfolding feed
  run s [] = ([], s)
  run s (i ∷ rest) =
      let (first, s') = feed s i in let (more, last) = run s' rest in (first ++ more, last)

  feed_once :
      (k : PendingKind) (id : String) (s : ServerState) (i : Input Value)
      → count (announces k id) (feed s i).0 + was_seen k id s ≡ was_seen k id (feed s i).1
  unfolding feed
  feed_once k id s (event e) = apply_event_once j k id s e
  feed_once k id s (reconciled snap events initial live_ready) =
      reconcile_once j k id s snap events initial live_ready

  run_once :
      (k : PendingKind) (id : String) (s : ServerState) (inputs : List (Input Value))
      → count (announces k id) (run s inputs).0 + was_seen k id s ≡ was_seen k id (run s inputs).1
  unfolding run count
  run_once k id s [] = omega arith
  run_once k id s (i ∷ rest) = omega (
    arith,
    count-append (announces k id) (feed s i).0 (run (feed s i).1 rest).0,
    feed_once k id s i,
    run_once k id (feed s i).1 rest,
  )

  -- Over any run of live events and reconciliations, from any state, a permission or question
  -- request is announced at most once, and never if its identifier had been seen before.
  pub announced_at_most_once :
      (k : PendingKind) (id : String) (s : ServerState) (inputs : List (Input Value))
      → count (announces k id) (run s inputs).0 + was_seen k id s ≤ 1
  announced_at_most_once k id s inputs = ground (arith, run_once k id s inputs)
