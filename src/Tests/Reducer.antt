-- ===== src/Tests/Reducer.antt =====
-- Runs of the reducer, and its theorems at them.
use opencode_beacon.Prelude.{
  ℕ, suc, ◌+◌, ◌≤◌, String, true, false, none, some, List, [], ◌∷◌, ◌≡◌, ◌↔◌, refl, any, count,
  filter, length, not, ◌&&◌, ◌||◌, ◌==◌, eq_iff, All, is_some,
}
use opencode_beacon.Prelude.Maps.{lookup, contains}
use opencode_beacon.Prelude.Sort.{IsSorted}
use opencode_beacon.Model.{live, snapshot, Snapshot}
use opencode_beacon.State.Record.{ServerState, default_state}
use opencode_beacon.State.Pending.{delete_session}
use opencode_beacon.State.Pending.Holds.{owned_by}
use opencode_beacon.State.Pending.Deletion.{delete_session_removes, delete_session_keeps}
use opencode_beacon.State.Root.{resolve_loop, resolve_root}
use opencode_beacon.State.Root.Ancestry.{Ancestry, resolve_root_total, resolve_root_iff}
use opencode_beacon.State.Attention.{PendingKind, pending_permission, seen}
use opencode_beacon.State.Attention.Once.{announces, was_seen, to_nat}
use opencode_beacon.State.Ready.{root_is_effectively_idle}
use opencode_beacon.State.Ready.Exact.{says_ready}
use opencode_beacon.State.Reduce.{
  apply_event_with_updates, reconcile_with_updates, reconcile_replayed_with_updates, StateUpdate,
}
use opencode_beacon.State.View.{projection, projected_order}
use opencode_beacon.State.View.Projection.{projected, projection_exact}
use opencode_beacon.State.Invariant.{IsWellFormed}
use opencode_beacon.State.Invariant.Steps.{apply_event-IsWellFormed, reconcile-IsWellFormed}
use opencode_beacon.State.Updates.{Input, event, reconciled, run, announced_at_most_once}
use opencode_beacon.State.Updates.Quiet.{is_known_root, is_busy_root}
use opencode_beacon.State.Updates.Ready.{ready_exact, armed_exact}
use opencode_beacon.State.Updates.Snapshots.{was_unquiet, snapshot_ready_exact}
use opencode_beacon.State.Updates.Initial.{pending, IsRequestNotice, first_snapshot_silent}
use opencode_beacon.State.Updates.Transitions.{
  change, event_transitions_exact, snapshot_transitions_exact,
}
use opencode_beacon.Tests.Sample.{Doc, sample, created_root, root_idle, asked, replied, snap}

-- The state after the first snapshot: the root is busy, and a permission is pending below it.
abbrev started : ServerState
started = (reconcile_with_updates sample default_state snap true).1

started-IsWellFormed : IsWellFormed started
started-IsWellFormed = reconcile-IsWellFormed sample default_state snap [] true []

-- The root goes idle while the permission is pending, and is ready when that is answered.
abbrev waiting : ServerState
waiting = (apply_event_with_updates sample started root_idle).1

waiting-IsWellFormed : IsWellFormed waiting
waiting-IsWellFormed = apply_event-IsWellFormed sample started root_idle started-IsWellFormed

not_ready_yet :
    (any (says_ready "ses_a") (apply_event_with_updates sample started root_idle).0.attention
      ≡ false)
    × (any (says_ready "ses_a") (apply_event_with_updates sample waiting replied).0.attention
        ≡ true)
unfolding any says_ready apply_event_with_updates reconcile_replayed_with_updates
not_ready_yet = (refl, refl)

child_resolves : resolve_root started.sessions "ses_b" ≡ ("ses_a", true)
unfolding resolve_root reconcile_replayed_with_updates
child_resolves = refl

resolve_root_total_example :
    resolve_loop (suc (length started.sessions)) started.sessions "ses_b" "ses_b" []
    ≡ some (resolve_root started.sessions "ses_b")
resolve_root_total_example = resolve_root_total started.sessions "ses_b"

resolve_root_iff_example :
    (resolve_root started.sessions "ses_b" ≡ ("ses_a", true))
    ↔ ((n : ℕ) × Ancestry started.sessions n "ses_b" "ses_a")
resolve_root_iff_example = resolve_root_iff started.sessions "ses_b" "ses_a"

apply_event-IsWellFormed_example : IsWellFormed (apply_event_with_updates sample started asked).1
apply_event-IsWellFormed_example =
    apply_event-IsWellFormed sample started asked started-IsWellFormed

reconcile-IsWellFormed_example :
    IsWellFormed (reconcile_replayed_with_updates sample waiting snap (root_idle ∷ []) false []).1
reconcile-IsWellFormed_example =
    reconcile-IsWellFormed sample waiting snap (root_idle ∷ []) false []

abbrev inputs : List (Input Doc)
inputs = event created_root ∷ event asked ∷ reconciled snap [] false [] ∷ event asked ∷ []

announced_at_most_once_example :
    count (announces pending_permission "per_1") (run sample default_state inputs).0
      + was_seen pending_permission "per_1" default_state
    ≤ 1
announced_at_most_once_example =
    announced_at_most_once sample pending_permission "per_1" default_state inputs

announced_once :
    count (announces pending_permission "per_1") (run sample default_state inputs).0 ≡ 1
unfolding count announces run apply_event_with_updates reconcile_replayed_with_updates
announced_once = refl

ready_exact_example :
    any (says_ready "ses_a") (apply_event_with_updates sample waiting replied).0.attention ≡ (
      contains waiting.ready_armed "ses_a"
      && is_known_root (apply_event_with_updates sample waiting replied).1 "ses_a"
      && root_is_effectively_idle (apply_event_with_updates sample waiting replied).1 "ses_a")
ready_exact_example = ready_exact sample waiting replied "ses_a" waiting-IsWellFormed

armed_exact_example :
    contains (apply_event_with_updates sample waiting replied).1.ready_armed "ses_a" ≡ (
      is_busy_root (apply_event_with_updates sample waiting replied).1 "ses_a"
      || (contains waiting.ready_armed "ses_a"
          && is_known_root (apply_event_with_updates sample waiting replied).1 "ses_a"
          && not (
              root_is_effectively_idle
                (apply_event_with_updates sample waiting replied).1
                "ses_a")))
armed_exact_example = armed_exact sample waiting replied "ses_a" waiting-IsWellFormed

-- The sample's snapshot with no request pending.
abbrev quiet : Snapshot
quiet = record snap { permissions = [] }

-- A root that was idle is busy in a snapshot, and idle again by a journaled event.
abbrev root_known : ServerState
root_known = (apply_event_with_updates sample default_state created_root).1

abbrev resnapped : ServerState
resnapped = (reconcile_replayed_with_updates sample root_known quiet (root_idle ∷ []) false []).1

ready_after_replay :
    (contains root_known.ready_armed "ses_a" ≡ false)
    × (any
          (says_ready "ses_a")
          (reconcile_replayed_with_updates sample root_known quiet
            (root_idle ∷ [])
            false
            []).0.attention
        ≡ true)
unfolding any says_ready contains apply_event_with_updates reconcile_replayed_with_updates
ready_after_replay = (refl, refl)

snapshot_ready_exact_example :
    (any
        (says_ready "ses_a")
        (reconcile_replayed_with_updates sample root_known quiet
          (root_idle ∷ [])
          false
          []).0.attention
      ≡ (was_unquiet sample root_known quiet (root_idle ∷ []) [] "ses_a"
          && root_is_effectively_idle resnapped "ses_a"))
    × (contains resnapped.ready_armed "ses_a" ≡ (
        is_busy_root resnapped "ses_a"
        || (was_unquiet sample root_known quiet (root_idle ∷ []) [] "ses_a"
            && not (root_is_effectively_idle resnapped "ses_a"))))
snapshot_ready_exact_example =
    snapshot_ready_exact sample root_known quiet (root_idle ∷ []) [] "ses_a"

abbrev first : StateUpdate × ServerState
first = reconcile_replayed_with_updates sample default_state snap (root_idle ∷ []) true []

first_snapshot_silent_example :
    All (IsRequestNotice first.1) first.0.attention
    × ((k : PendingKind) (id : String)
        → count (announces k id) first.0.attention
          ≡ to_nat
              (is_some (lookup id (pending k first.1)) && not (contains (seen k default_state) id)))
first_snapshot_silent_example = first_snapshot_silent sample default_state snap (root_idle ∷ []) []

event_transitions_exact_example :
    filter
      (λ t. t.session_id == "ses_b")
      (apply_event_with_updates sample waiting replied).0.transitions
    ≡ change waiting (apply_event_with_updates sample waiting replied).1 live "ses_b"
event_transitions_exact_example = event_transitions_exact sample waiting "ses_b" replied

snapshot_transitions_exact_example :
    filter
      (λ t. t.session_id == "ses_a")
      (reconcile_replayed_with_updates sample waiting snap [] false []).0.transitions
    ≡ change waiting
        (reconcile_replayed_with_updates sample waiting snap [] false []).1
        snapshot
        "ses_a"
snapshot_transitions_exact_example =
    snapshot_transitions_exact sample waiting "ses_a" snap [] false []

projection_exact_example :
    ((id : String) → filter (λ p. p.id == id) (projection started) ≡ projected started.sessions id)
    × IsSorted projected_order (projection started)
projection_exact_example = projection_exact started started-IsWellFormed

delete_session_removes_example :
    (lookup "ses_b" (delete_session started "ses_b").sessions ≡ none)
    × (owned_by (delete_session started "ses_b").permissions "per_1" "ses_b" ≡ false)
    × (owned_by (delete_session started "ses_b").questions "per_1" "ses_b" ≡ false)
    × (contains (delete_session started "ses_b").ready_armed "ses_b" ≡ false)
delete_session_removes_example =
    delete_session_removes started "ses_b" started-IsWellFormed.permissions_unique
      started-IsWellFormed.questions_unique "per_1"

delete_session_keeps_example :
    (lookup "ses_a" (delete_session started "ses_b").sessions ≡ lookup "ses_a" started.sessions)
    × (owned_by (delete_session started "ses_b").permissions "per_1" "ses_a"
        ≡ owned_by started.permissions "per_1" "ses_a")
    × (owned_by (delete_session started "ses_b").questions "per_1" "ses_a"
        ≡ owned_by started.questions "per_1" "ses_a")
    × (contains (delete_session started "ses_b").ready_armed "ses_a"
        ≡ contains started.ready_armed "ses_a")
delete_session_keeps_example =
    delete_session_keeps started "ses_b" started-IsWellFormed.permissions_unique
      started-IsWellFormed.questions_unique "ses_a" "per_1" (λ e. cc ((eq_iff "ses_b" "ses_a").1 e))
