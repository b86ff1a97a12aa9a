-- ===== src/Monitor/Gate/Settling.antt =====
-- The settling passes of the discovery loop (src/monitor.rs).
use mathlib.Core.Path.{subst}
use opencode_beacon.Prelude.{
  ℕ, ◌+◌, ◌≤◌, ◌<◌, String, Bool, true, false, Option, none, some, List, [], ◌∷◌, ◌++◌, ◌||◌, ltb,
  if◌then◌else◌, ◌≡◌, refl, sym, ap, arith, Bool-cases, Option-cases, inl, inr,
}
use opencode_beacon.Monitor.Pass.{Discovered, Outcome, discover_once}
use opencode_beacon.Monitor.Gate.{
  Gate, start_gate, Read, Wake, pass, gate_tick, full_tick, resync_changed, discovery_changed,
  settled, stop, settling_delays, differs, take_settling, prepare, is_changed, settle, finish_pass,
  run_pass, next_generation, wake, wake_all,
}

-- The index of a delay that runs is one of the three, and the next one is at most one more.
pub record IsInRange (settling continuation : Option ℕ) : Type 0 where
  pub delay : (n : ℕ) → settling ≡ some n → n < settling_delays
  pub next : (n : ℕ) → continuation ≡ some n → n ≤ settling_delays

abbrev pub IsSettling : {F : Type 0} → Gate F → Type 0
IsSettling g = IsInRange g.settling g.settling_continuation

module _ {F : Type 0} (same : F → F → Bool) (is_empty : F → Bool) (failure : String → String) where
  take-IsSettling : (g : Gate F) → IsSettling g → IsSettling (take_settling same is_empty failure g)
  unfolding take_settling
  take-IsSettling g h = elim (Option-cases g.settling) [
    | inl e ↦ rw (e, take_settling) h
    | inr (n, e) ↦
        let small = h.delay n e in
        rw (e, take_settling)
          (record {
            delay = λ k f. absurd (ground (arith, f));
            next = λ k f. ground (arith, f, small);
          })
  ]

  settle-IsSettling :
      (changed : Bool) (g : Gate F)
      → IsSettling g
      → IsSettling (settle same is_empty failure changed g)
  unfolding settle
  settle-IsSettling changed g h = elim (Bool-cases (changed || g.gate_change_pending)) [
    | inl now ↦
        rw (now, settle)
          (record { delay = λ k f. ground (arith, f); next = λ k f. absurd (ground (arith, f)) })
    | inr unchanged ↦ elim (Option-cases g.settling_continuation) [
      | inl e ↦ rw (unchanged, e, settle) h
      | inr (n, e) ↦ elim (Bool-cases (ltb n settling_delays)) [
        | inl small ↦
            rw (unchanged, e, small, settle)
              (record {
                delay = λ k f. ground (arith, f, small);
                next = λ k f. absurd (ground (arith, f));
              })
        | inr large ↦
            rw (unchanged, e, large, settle)
              (record { delay = h.delay; next = λ k f. absurd (ground (arith, f)) })
      ]
    ]
  ]

  prepare-IsSettling :
      (tick : Option (Read F)) (elapsed : Bool) (g : Gate F)
      → IsSettling g
      → IsSettling (prepare same is_empty failure tick elapsed g)
  unfolding prepare
  prepare-IsSettling tick false g h = record { delay = h.delay; next = h.next }
  prepare-IsSettling tick true g h =
      take-IsSettling (prepare same is_empty failure tick false g)
        (record { delay = h.delay; next = h.next })

  finish_pass-IsSettling :
      (o : Outcome F) (g : Gate F)
      → IsSettling g
      → IsSettling (finish_pass same is_empty failure o g)
  unfolding finish_pass
  finish_pass-IsSettling o g h =
      let before = record g {
        baseline = elim o.fingerprint [ none ↦ g.baseline | some f ↦ some f ];
        completed_generation = o.completed_generation;
        active = o.active;
        events = g.events ++ o.events;
      } in
      let after =
        settle-IsSettling (is_changed same is_empty failure g.baseline o.fingerprint) before
          (record { delay = h.delay; next = h.next }) in
      record { delay = after.delay; next = after.next }

  run_pass-IsSettling :
      (tick : Option (Read F)) (elapsed : Bool) (result : Discovered F) (g : Gate F)
      → IsSettling g
      → IsSettling (run_pass same is_empty failure tick elapsed result g)
  unfolding run_pass
  run_pass-IsSettling tick elapsed result g h =
      let g' = prepare same is_empty failure tick elapsed g in
      finish_pass-IsSettling
        (discover_once failure result g'.generation g'.completed_generation g'.active) g'
        (prepare-IsSettling tick elapsed g h)

  abbrev AllSettling : Option (Gate F) → Type 0
  AllSettling none = Unit
  AllSettling (some g) = IsSettling g

  -- A wake that only asks for a pass.
  asks :
      (i : Wake F) (g : Gate F)
      → (g.full_pending ≡ true → wake same is_empty failure i g ≡ none)
      → (g.full_pending ≡ false
          → wake same is_empty failure i g ≡ some (record g { full_pending = true }))
      → IsSettling g
      → AllSettling (wake same is_empty failure i g)
  asks i g busy free h = elim (Bool-cases g.full_pending) [
    | inl p ↦ subst AllSettling (sym (busy p)) tt
    | inr p ↦ subst AllSettling (sym (free p)) (record { delay = h.delay; next = h.next })
  ]

  asked :
      (g : Gate F)
      → g.running ≡ true
      → some (record g { full_pending = true })
        ≡ some (record g { full_pending = true; running = true })
  asked g r = ap (λ b. some (record g { full_pending = true; running = b })) r

  running-AllSettling :
      (i : Wake F) (g : Gate F)
      → g.running ≡ true
      → IsSettling g
      → AllSettling (wake same is_empty failure i g)
  unfolding wake
  running-AllSettling stop g r h = rw (r, wake) (record { delay = h.delay; next = h.next })
  running-AllSettling (pass tick elapsed result) g r h = elim (Bool-cases g.full_pending) [
    | inl p ↦ rw (r, p, wake) (run_pass-IsSettling tick elapsed result g h)
    | inr p ↦ rw (r, p, wake) tt
  ]
  running-AllSettling (gate_tick none) g r h =
      asks (gate_tick none) g (λ p. rw (r, p, wake) refl) (λ p. rw (r, p, wake) (asked g r)) h
  running-AllSettling (gate_tick (some f)) g r h = elim (Bool-cases g.full_pending) [
    | inl p ↦ rw (r, p, wake) tt
    | inr p ↦ elim (Bool-cases (differs same is_empty failure g.baseline f)) [
      | inl d ↦ rw (r, p, d, wake) (record { delay = h.delay; next = h.next })
      | inr d ↦ rw (r, p, d, wake) h
    ]
  ]
  running-AllSettling full_tick g r h =
      asks full_tick g (λ p. rw (r, p, wake) refl) (λ p. rw (r, p, wake) (asked g r)) h
  running-AllSettling resync_changed g r h =
      asks resync_changed g (λ p. rw (r, p, wake) refl) (λ p. rw (r, p, wake) (asked g r)) h
  running-AllSettling discovery_changed g r h =
      asks discovery_changed g (λ p. rw (r, p, wake) refl) (λ p. rw (r, p, wake) (asked g r)) h
  running-AllSettling settled g r h = elim (Bool-cases g.full_pending) [
    | inl p ↦ rw (r, p, wake) tt
    | inr p ↦ elim (Option-cases g.settling) [
      | inl e ↦ rw (r, p, e, wake) tt
      | inr (n, e) ↦
          let taken = take-IsSettling g h in
          rw (r, p, e, wake) (record { delay = taken.delay; next = taken.next })
    ]
  ]

  wake-AllSettling :
      (i : Wake F) (g : Gate F) → IsSettling g → AllSettling (wake same is_empty failure i g)
  unfolding wake
  wake-AllSettling i g h = elim (Bool-cases g.running) [
    | inl r ↦ running-AllSettling i g r h
    | inr over ↦ rw (over, wake) tt
  ]

  wake_all-IsSettling :
      (is : List (Wake F)) (g g' : Gate F)
      → wake_all same is_empty failure is g ≡ some g'
      → IsSettling g
      → IsSettling g'
  unfolding wake_all
  wake_all-IsSettling [] g g' e h =
      let same_gate : g ≡ g' = ground (arith, e) in subst IsSettling same_gate h
  wake_all-IsSettling (i ∷ is) g g' e h = elim (Option-cases (wake same is_empty failure i g)) [
    | inl f ↦ absurd (ground (arith, e, f))
    | inr (n, f) ↦
        wake_all-IsSettling is n g' (ground (arith, e, f))
          (subst AllSettling f (wake-AllSettling i g h))
  ]

  -- Whatever wakes the discovery loop, in whatever order and with whatever results of its passes,
  -- the settling delay that runs is one of the three, so that the table of delays is never read out
  -- of its bounds.
  pub settling_in_range :
      (is : List (Wake F)) (g : Gate F) (n : ℕ)
      → wake_all same is_empty failure is start_gate ≡ some g
      → g.settling ≡ some n
      → n < 3
  settling_in_range is g n e at =
      (wake_all-IsSettling is start_gate g e (record {
        delay = λ k f. absurd (ground (arith, f));
        next = λ k f. absurd (ground (arith, f));
      })).delay
        n at

  -- The gate when the n-th delay runs, and the loop waits.
  abbrev waits_for : ℕ → Gate F → Gate F
  waits_for n g = record g {
    running = true;
    full_pending = false;
    gate_change_pending = false;
    settling = some n;
  }

  -- The pass after that delay.
  abbrev settling_pass : Discovered F → Gate F → Outcome F
  settling_pass result g =
      discover_once failure result (next_generation g.generation) g.completed_generation g.active

  -- The outcome of the pass is taken over, and the next delay starts if there is one.
  abbrev after_settling : ℕ → Discovered F → Gate F → Gate F
  after_settling n result g = record g {
    baseline = elim (settling_pass result g).fingerprint [ none ↦ g.baseline | some f ↦ some f ];
    running = true;
    full_pending = false;
    gate_change_pending = false;
    settling = if ltb (n + 1) settling_delays then some (n + 1) else none;
    settling_continuation = none;
    generation = next_generation g.generation;
    completed_generation = (settling_pass result g).completed_generation;
    active = (settling_pass result g).active;
    events = g.events ++ (settling_pass result g).events;
  }

  -- A settling delay that ends brings a pass; if that pass sees no change, the next delay starts, or
  -- none after the third, and the loop waits again.
  settles_next :
      (g : Gate F) (n : ℕ) (result : Discovered F)
      → is_changed same is_empty failure g.baseline (settling_pass result g).fingerprint ≡ false
      → wake_all same is_empty failure (settled ∷ pass none false result ∷ []) (waits_for n g)
        ≡ some (after_settling n result g)
  unfolding wake_all wake run_pass finish_pass prepare take_settling settle
  settles_next g n result unchanged = rw (unchanged, settle) refl
