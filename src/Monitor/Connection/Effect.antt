-- ===== src/Monitor/Connection/Effect.antt =====
-- What a step of a server's task can do: every phase and input, once, for the proofs about runs.
use opencode_beacon.Prelude.{
  ℕ, String, Bool, true, false, Option, none, some, ◌≡◌, refl, Bool-cases, inl, inr,
}
use opencode_beacon.Model.{ServerEndpoint}
use opencode_beacon.State.Json.{Json}
use opencode_beacon.Monitor.Pass.{DiscoveryCompletion}
use opencode_beacon.Monitor.Sink.{SourceEvent, EventJournal, new_journal, can_poll, push_event}
use opencode_beacon.Monitor.Live.{SnapshotResult}
use opencode_beacon.Monitor.Connection.{
  arrived, stream_error, stream_end, Triggers, Input, stop, stream_opened, stream_refused,
  next_item, snapshot_done, periodic_tick, resync_changed, resync_closed, coalesce_elapsed,
  delay_elapsed, verified, verification_closed, Phase, connecting, bootstrapping, live, reconciling,
  waiting, ended, Server, in_phase, look, disconnect, open_stream, finish_bootstrap,
  bootstrap_snapshot, reconcile_event, reconcile_snapshot, live_event, step_in,
}

-- A change of the phase that handles no event.
pub data Move {V : Type 0} (p q : Phase V) : Type 0 where
  finishes : q ≡ ended → Move p q
  stays : q ≡ p → Move p q
  begins : p ≡ live → q ≡ reconciling new_journal false → Move p q
  repeats :
      (n : EventJournal V) (b : Bool) → p ≡ reconciling n b → q ≡ reconciling n true → Move p q

-- Events are held back.
abbrev pub is_buffering : {V : Type 0} → Phase V → Bool
is_buffering (bootstrapping n) = true
is_buffering connecting = false
is_buffering live = false
is_buffering (reconciling n b) = false
is_buffering (waiting g b) = false
is_buffering ended = false

-- An event arrives.
abbrev pub is_arrived : {V : Type 0} → Input V → Bool
is_arrived (next_item (arrived e)) = true
is_arrived _ = false

module _ (j : Json) (endpoint : ServerEndpoint) where
  open j use {Value}

  -- The effect of an input in a phase, with what it leads to.
  pub data Effect (m : Server Value) (p : Phase Value) (i : Input Value) (o : Option (Server Value))
      : Type 0 where
    refuses : o ≡ none → Effect m p i o
    moves :
        (q : Phase Value) (c : Bool) (v : DiscoveryCompletion)
        → Move p q
        → is_arrived i ≡ false
        → o ≡ some (record m { phase = q; coalesced = c; verification = v })
        → Effect m p i o
    opens :
        is_arrived i ≡ false
        → is_buffering p ≡ false
        → o ≡ some (open_stream j endpoint m)
        → Effect m p i o
    disconnects :
        (reason : String)
        → is_arrived i ≡ false
        → is_buffering p ≡ false
        → o ≡ some (disconnect j endpoint reason m)
        → Effect m p i o
    buffers :
        (n : EventJournal Value) (e : SourceEvent Value)
        → p ≡ bootstrapping n
        → i ≡ next_item (arrived e)
        → can_poll n ≡ true
        → o ≡ some (in_phase (bootstrapping (push_event e n)) m)
        → Effect m p i o
    fails_early :
        (n : EventJournal Value) (error : String)
        → p ≡ bootstrapping n
        → is_arrived i ≡ false
        → o ≡ some (finish_bootstrap j endpoint n (some error) m)
        → Effect m p i o
    bootstraps :
        (n : EventJournal Value) (result : SnapshotResult)
        → p ≡ bootstrapping n
        → is_arrived i ≡ false
        → o ≡ some (bootstrap_snapshot j endpoint n result m)
        → Effect m p i o
    handles :
        (e : SourceEvent Value)
        → i ≡ next_item (arrived e)
        → is_buffering p ≡ false
        → o ≡ some (live_event j endpoint e m)
        → Effect m p i o
    journals :
        (n : EventJournal Value) (rerun : Bool) (e : SourceEvent Value)
        → p ≡ reconciling n rerun
        → i ≡ next_item (arrived e)
        → can_poll n ≡ true
        → o ≡ some (reconcile_event j endpoint n rerun e m)
        → Effect m p i o
    reconciles :
        (n : EventJournal Value) (rerun : Bool) (result : SnapshotResult) (t : Triggers)
        → p ≡ reconciling n rerun
        → is_arrived i ≡ false
        → o ≡ some (reconcile_snapshot j endpoint n rerun result t m)
        → Effect m p i o
    looks :
        (g : ℕ) (b : Bool) (v : DiscoveryCompletion)
        → is_arrived i ≡ false
        → is_buffering p ≡ false
        → o ≡ some (look (record m { verification = v }) g b)
        → Effect m p i o

  pub effect :
      (m : Server Value) (p : Phase Value) (i : Input Value)
      → Effect m p i (step_in j endpoint p i m)
  unfolding step_in
  effect m connecting stop = moves ended m.coalesced m.verification (finishes refl) refl refl
  effect m connecting stream_opened = opens refl refl refl
  effect m connecting (stream_refused x) = disconnects x refl refl refl
  effect m connecting (next_item (arrived x)) = refuses refl
  effect m connecting (next_item (stream_error x)) = refuses refl
  effect m connecting (next_item stream_end) = refuses refl
  effect m connecting (snapshot_done x t) = refuses refl
  effect m connecting periodic_tick = refuses refl
  effect m connecting resync_changed = refuses refl
  effect m connecting resync_closed = refuses refl
  effect m connecting coalesce_elapsed = refuses refl
  effect m connecting delay_elapsed = refuses refl
  effect m connecting (verified x) = moves connecting m.coalesced x (stays refl) refl refl
  effect m connecting verification_closed = refuses refl
  effect m (bootstrapping n) stop = moves ended m.coalesced m.verification (finishes refl) refl refl
  effect m (bootstrapping n) stream_opened = refuses refl
  effect m (bootstrapping n) (stream_refused x) = refuses refl
  effect m (bootstrapping n) (next_item (arrived x)) = elim (Bool-cases (can_poll n)) [
    | inr full ↦ refuses (rw (full, step_in) refl)
    | inl open_ ↦ buffers n x refl refl open_ (rw (open_, step_in) refl)
  ]
  effect m (bootstrapping n) (next_item (stream_error x)) = elim (Bool-cases (can_poll n)) [
    | inr full ↦ refuses (rw (full, step_in) refl)
    | inl open_ ↦ fails_early n x refl refl (rw (open_, step_in) refl)
  ]
  effect m (bootstrapping n) (next_item stream_end) = elim (Bool-cases (can_poll n)) [
    | inr full ↦ refuses (rw (full, step_in) refl)
    | inl open_ ↦
        fails_early n "SSE stream ended during bootstrap" refl refl (rw (open_, step_in) refl)
  ]
  effect m (bootstrapping n) (snapshot_done x t) = bootstraps n x refl refl refl
  effect m (bootstrapping n) periodic_tick = refuses refl
  effect m (bootstrapping n) resync_changed = refuses refl
  effect m (bootstrapping n) resync_closed = refuses refl
  effect m (bootstrapping n) coalesce_elapsed = refuses refl
  effect m (bootstrapping n) delay_elapsed = refuses refl
  effect m (bootstrapping n) (verified x) =
      moves (bootstrapping n) m.coalesced x (stays refl) refl refl
  effect m (bootstrapping n) verification_closed = refuses refl
  effect m live stop = moves ended m.coalesced m.verification (finishes refl) refl refl
  effect m live stream_opened = refuses refl
  effect m live (stream_refused x) = refuses refl
  effect m live (next_item (arrived x)) = handles x refl refl refl
  effect m live (next_item (stream_error x)) = disconnects x refl refl refl
  effect m live (next_item stream_end) = disconnects "SSE stream ended" refl refl refl
  effect m live (snapshot_done x t) = refuses refl
  effect m live periodic_tick =
      moves (reconciling new_journal false) m.coalesced m.verification (begins refl refl) refl refl
  effect m live resync_changed =
      moves (reconciling new_journal false) m.coalesced m.verification (begins refl refl) refl refl
  effect m live resync_closed = moves ended m.coalesced m.verification (finishes refl) refl refl
  effect m live coalesce_elapsed = elim (Bool-cases m.coalesced) [
    | inr unset ↦ refuses (rw (unset, step_in) refl)
    | inl set ↦
        moves (reconciling new_journal false) false m.verification (begins refl refl) refl
          (rw (set, step_in) refl)
  ]
  effect m live delay_elapsed = refuses refl
  effect m live (verified x) = moves live m.coalesced x (stays refl) refl refl
  effect m live verification_closed = refuses refl
  effect m (reconciling n r) stop = moves ended m.coalesced m.verification (finishes refl) refl refl
  effect m (reconciling n r) stream_opened = refuses refl
  effect m (reconciling n r) (stream_refused x) = refuses refl
  effect m (reconciling n r) (next_item (arrived x)) = elim (Bool-cases (can_poll n)) [
    | inr full ↦ refuses (rw (full, step_in) refl)
    | inl open_ ↦ journals n r x refl refl open_ (rw (open_, step_in) refl)
  ]
  effect m (reconciling n r) (next_item (stream_error x)) = elim (Bool-cases (can_poll n)) [
    | inr full ↦ refuses (rw (full, step_in) refl)
    | inl open_ ↦ disconnects x refl refl (rw (open_, step_in) refl)
  ]
  effect m (reconciling n r) (next_item stream_end) = elim (Bool-cases (can_poll n)) [
    | inr full ↦ refuses (rw (full, step_in) refl)
    | inl open_ ↦
        disconnects "SSE stream ended during reconciliation" refl refl (rw (open_, step_in) refl)
  ]
  effect m (reconciling n r) (snapshot_done x t) = reconciles n r x t refl refl refl
  effect m (reconciling n r) periodic_tick =
      moves (reconciling n true) m.coalesced m.verification (repeats n r refl refl) refl refl
  effect m (reconciling n r) resync_changed =
      moves (reconciling n true) m.coalesced m.verification (repeats n r refl refl) refl refl
  effect m (reconciling n r) resync_closed =
      moves ended m.coalesced m.verification (finishes refl) refl refl
  effect m (reconciling n r) coalesce_elapsed = elim (Bool-cases m.coalesced) [
    | inr unset ↦ refuses (rw (unset, step_in) refl)
    | inl set ↦
        moves (reconciling n true) false m.verification (repeats n r refl refl) refl
          (rw (set, step_in) refl)
  ]
  effect m (reconciling n r) delay_elapsed = refuses refl
  effect m (reconciling n r) (verified x) =
      moves (reconciling n r) m.coalesced x (stays refl) refl refl
  effect m (reconciling n r) verification_closed = refuses refl
  effect m (waiting g b) stop = moves ended m.coalesced m.verification (finishes refl) refl refl
  effect m (waiting g b) stream_opened = refuses refl
  effect m (waiting g b) (stream_refused x) = refuses refl
  effect m (waiting g b) (next_item (arrived x)) = refuses refl
  effect m (waiting g b) (next_item (stream_error x)) = refuses refl
  effect m (waiting g b) (next_item stream_end) = refuses refl
  effect m (waiting g b) (snapshot_done x t) = refuses refl
  effect m (waiting g b) periodic_tick = refuses refl
  effect m (waiting g b) resync_changed = refuses refl
  effect m (waiting g b) resync_closed = refuses refl
  effect m (waiting g b) coalesce_elapsed = refuses refl
  effect m (waiting g true) delay_elapsed = refuses refl
  effect m (waiting g false) delay_elapsed = looks g true m.verification refl refl refl
  effect m (waiting g b) (verified x) = looks g b x refl refl refl
  effect m (waiting g b) verification_closed =
      moves ended m.coalesced m.verification (finishes refl) refl refl
  effect m ended stop = refuses refl
  effect m ended stream_opened = refuses refl
  effect m ended (stream_refused x) = refuses refl
  effect m ended (next_item (arrived x)) = refuses refl
  effect m ended (next_item (stream_error x)) = refuses refl
  effect m ended (next_item stream_end) = refuses refl
  effect m ended (snapshot_done x t) = refuses refl
  effect m ended periodic_tick = refuses refl
  effect m ended resync_changed = refuses refl
  effect m ended resync_closed = refuses refl
  effect m ended coalesce_elapsed = refuses refl
  effect m ended delay_elapsed = refuses refl
  effect m ended (verified x) = refuses refl
  effect m ended verification_closed = refuses refl
