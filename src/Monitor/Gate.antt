-- ===== src/Monitor/Gate.antt =====
-- The discovery loop, `run_discovery_with` (src/monitor.rs): when a pass is due, and the settling
-- passes after a change. The fingerprints of the listener table are compared only, so their `==` and
-- `is_empty` (src/discovery.rs) are arguments.
pub mod Settling
use opencode_beacon.Prelude.{
  ℕ, ◌+◌, String, Bool, true, false, Option, none, some, List, [], ◌∷◌, ◌++◌, ◌||◌, ◌&&◌, not, leb,
  ltb, if◌then◌else◌, is_some_and,
}
use opencode_beacon.Events.{BeaconEvent}
use opencode_beacon.Monitor.Pass.{Active, Discovered, Outcome, discover_once}

-- `SETTLING_DELAYS.len()`
abbrev pub settling_delays : ℕ
settling_delays = 3

pub record Gate (F : Type 0) : Type 0 where
  pub baseline : Option F
  pub full_pending : Bool
  pub gate_change_pending : Bool
  -- the index of the delay that is running
  pub settling : Option ℕ
  pub settling_continuation : Option ℕ
  pub generation : ℕ
  pub completed_generation : ℕ
  pub active : Active
  pub events : List BeaconEvent
  pub running : Bool

abbrev pub start_gate : {F : Type 0} → Gate F
start_gate = record {
  baseline = none;
  full_pending = true;
  gate_change_pending = false;
  settling = none;
  settling_continuation = none;
  generation = 0;
  completed_generation = 0;
  active = [];
  events = [];
  running = true;
}

-- What the gate reads, `none` for an error.
abbrev pub Read : Type 0 → Type 0
Read F = Option F

pub data Wake (F : Type 0) : Type 0 where
  -- a pass, with the gate's fingerprint if its tick is ready, and whether the settling delay is over
  pass : Option (Read F) → Bool → Discovered F → Wake F
  gate_tick : Read F → Wake F
  full_tick resync_changed discovery_changed settled : Wake F
  -- a shutdown, a closed channel, or a sink that stops in a pass
  stop : Wake F

-- `u64::wrapping_add(1)`
abbrev pub next_generation : ℕ → ℕ
next_generation n = if leb 18446744073709551615 n then 0 else n + 1

module _ {F : Type 0} (same : F → F → Bool) (is_empty : F → Bool) (failure : String → String) where
  -- The gate saw a table that differs from the baseline.
  unfoldable pub differs : Option F → F → Bool
  differs baseline f = not (is_some_and baseline (λ old. same old f))

  -- The settling delay is over: its next index is kept for after the pass.
  unfoldable pub take_settling : Gate F → Gate F
  take_settling g = elim g.settling [
    | none ↦ g
    | some index ↦ record g { settling = none; settling_continuation = some (index + 1) }
  ]

  -- What is looked at before a pass.
  unfoldable pub prepare : Option (Read F) → Bool → Gate F → Gate F
  unfolding differs take_settling
  prepare tick elapsed g =
      let seen = is_some_and tick (λ r. is_some_and r (differs g.baseline)) in
      let g' = record g {
        gate_change_pending = g.gate_change_pending || seen;
        generation = next_generation g.generation;
      } in
      if elapsed then take_settling g' else g'

  -- `changed`
  unfoldable pub is_changed : Option F → Option F → Bool
  is_changed baseline fingerprint =
      is_some_and fingerprint
        (λ f. elim baseline [ none ↦ not (is_empty f) | some old ↦ not (same old f) ])

  -- Which settling delay starts after a pass.
  unfoldable pub settle : Bool → Gate F → Gate F
  settle changed g =
      if changed || g.gate_change_pending
      then record g { settling = some 0; settling_continuation = none }
      else elim g.settling_continuation [
        | none ↦ g
        | some index ↦ record g {
          settling = if ltb index settling_delays then some index else g.settling;
          settling_continuation = none;
        }
      ]

  unfoldable pub finish_pass : Outcome F → Gate F → Gate F
  unfolding is_changed settle
  finish_pass o g =
      let changed = is_changed g.baseline o.fingerprint in
      let g' = record g {
        baseline = elim o.fingerprint [ none ↦ g.baseline | some f ↦ some f ];
        completed_generation = o.completed_generation;
        active = o.active;
        events = g.events ++ o.events;
      } in
      record (settle changed g') { gate_change_pending = false; full_pending = false }

  unfoldable pub run_pass : Option (Read F) → Bool → Discovered F → Gate F → Gate F
  unfolding prepare finish_pass discover_once
  run_pass tick elapsed result g =
      let g' = prepare tick elapsed g in
      finish_pass (discover_once failure result g'.generation g'.completed_generation g'.active) g'

  -- The tasks of the active servers are stopped when the loop ends.
  unfoldable pub wake : Wake F → Gate F → Option (Gate F)
  unfolding run_pass differs take_settling
  wake i g = elim g.running [
    | false ↦ none
    | true ↦ elim i [
      | stop ↦ some (record g { active = []; running = false })
      | pass tick elapsed result ↦ elim g.full_pending [
        | false ↦ none
        | true ↦ some (run_pass tick elapsed result g)
      ]
      | gate_tick r ↦ elim g.full_pending [
        | true ↦ none
        | false ↦ elim r [
          | none ↦ some (record g { full_pending = true })
          | some f ↦ elim (differs g.baseline f) [
            | false ↦ some g
            | true ↦ some (record g { gate_change_pending = true; full_pending = true })
          ]
        ]
      ]
      | full_tick ↦ elim g.full_pending [
        | true ↦ none
        | false ↦ some (record g { full_pending = true })
      ]
      | resync_changed ↦ elim g.full_pending [
        | true ↦ none
        | false ↦ some (record g { full_pending = true })
      ]
      | discovery_changed ↦ elim g.full_pending [
        | true ↦ none
        | false ↦ some (record g { full_pending = true })
      ]
      | settled ↦ elim g.full_pending [
        | true ↦ none
        | false ↦ elim g.settling [
          | none ↦ none
          | some index ↦ some (record (take_settling g) { full_pending = true })
        ]
      ]
    ]
  ]

  unfoldable pub wake_all : List (Wake F) → Gate F → Option (Gate F)
  unfolding wake
  wake_all [] g = some g
  wake_all (i ∷ is) g = elim (wake i g) [ none ↦ none | some g' ↦ wake_all is g' ]
