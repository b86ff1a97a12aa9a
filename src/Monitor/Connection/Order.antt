-- ===== src/Monitor/Connection/Order.antt =====
-- No event of the stream is lost, repeated or reordered by a server's task (src/monitor.rs).
use mathlib.Core.List.{append_assoc, append-nil}
use mathlib.Core.Path.{subst}
use opencode_beacon.Prelude.{
  ℕ, Bool, false, Option, none, some, List, [], ◌∷◌, ◌++◌, ◌≡◌, refl, sym, ◌∙◌, arith, ap,
  Option-cases, inl, inr, ◌⊎◌,
}
use opencode_beacon.Model.{ServerEndpoint, ObservedEvent, InstanceKey}
use opencode_beacon.State.Json.{Json}
use opencode_beacon.Monitor.Pass.{DiscoveryCompletion}
use opencode_beacon.Monitor.Sink.{SourceEvent, EventJournal, push_event}
use opencode_beacon.Monitor.Connection.{
  arrived, Input, next_item, Phase, connecting, bootstrapping, live, reconciling, waiting, ended,
  Server, in_phase, look, disconnect, open_stream, finish_bootstrap, bootstrap_snapshot,
  reconcile_event, reconcile_snapshot, live_event, step, stream_error, stream_end, stop,
  stream_opened, stream_refused, snapshot_done, periodic_tick, resync_changed, resync_closed,
  coalesce_elapsed, delay_elapsed, verified, verification_closed, step_in,
}
use opencode_beacon.Monitor.Connection.Effect.{
  Move, finishes, stays, begins, repeats, Effect, refuses, moves, opens, disconnects, buffers,
  fails_early, bootstraps, handles, journals, reconciles, looks, effect, is_arrived, is_buffering,
}
use opencode_beacon.Monitor.Connection.Runs.{start_server, run}
use opencode_beacon.Monitor.Connection.Delivered.{
  delivered, to_observe, to_observe_all, to_observe_all-append,
}
use opencode_beacon.Monitor.Connection.Complete.{
  pending, Complete, disconnect-Complete, look-Complete, finish_bootstrap-Complete,
  bootstrap_snapshot-Complete, reconcile_event-Complete, live_event-Complete,
  reconcile_snapshot-Complete, open_stream-Complete,
}

module _ (j : Json) (endpoint : ServerEndpoint) where
  open j use {Value}

  -- What an input reads from the stream.
  abbrev read_by : Input Value → List ObservedEvent
  read_by (next_item (arrived e)) = to_observe j e.event
  read_by _ = []

  -- The events of the stream among the inputs, heartbeats left out.
  abbrev pub read_from : List (Input Value) → List ObservedEvent
  read_from [] = []
  read_from (i ∷ is) = read_by i ++ read_from is

  quiet_input : (i : Input Value) → is_arrived i ≡ false → read_by i ≡ []
  quiet_input (next_item (arrived e)) h = cc
  quiet_input (next_item (stream_error e)) h = refl
  quiet_input (next_item stream_end) h = refl
  quiet_input stop h = refl
  quiet_input stream_opened h = refl
  quiet_input (stream_refused e) h = refl
  quiet_input (snapshot_done r t) h = refl
  quiet_input periodic_tick h = refl
  quiet_input resync_changed h = refl
  quiet_input resync_closed h = refl
  quiet_input coalesce_elapsed h = refl
  quiet_input delay_elapsed h = refl
  quiet_input (verified c) h = refl
  quiet_input verification_closed h = refl

  free_phase : (p : Phase Value) → is_buffering p ≡ false → pending j endpoint p ≡ []
  free_phase connecting h = refl
  free_phase (bootstrapping n) h = cc
  free_phase live h = refl
  free_phase (reconciling n b) h = refl
  free_phase (waiting g b) h = refl
  free_phase ended h = refl

  -- Nothing is read, so nothing is missing.
  still :
      (i : Input Value) (read : List ObservedEvent) (m : Server Value)
      → is_arrived i ≡ false
      → Complete j endpoint read m
      → Complete j endpoint (read ++ read_by i) m
  still i read m quiet h =
      subst (λ xs. Complete j endpoint xs m)
        (sym (ap (λ xs. read ++ xs) (quiet_input i quiet) ∙ append-nil read)) h

  unpending :
      (p : Phase Value) (xs read : List ObservedEvent)
      → is_buffering p ≡ false
      → xs ++ pending j endpoint p ≡ read
      → xs ≡ read
  unpending p xs read free h = sym (ap (λ zs. xs ++ zs) (free_phase p free) ∙ append-nil xs) ∙ h

  abbrev AllComplete : List ObservedEvent → Option (Server Value) → Type 0
  AllComplete read none = Unit
  AllComplete read (some m) = Complete j endpoint read m

  Move-Complete :
      (m : Server Value) (p q : Phase Value) (c : Bool) (v : DiscoveryCompletion)
      (read : List ObservedEvent)
      → Move p q
      → delivered m.sink.sent ++ pending j endpoint p ≡ read
      → Complete j endpoint read (record m { phase = q; coalesced = c; verification = v })
  Move-Complete m p q c v read (finishes e) h = inl e
  Move-Complete m p q c v read (stays e) h =
      inr (ap (λ x. delivered m.sink.sent ++ pending j endpoint x) e ∙ h)
  Move-Complete m p q c v read (begins e f) h = inr (
      ap (λ x. delivered m.sink.sent ++ pending j endpoint x) f
      ∙ sym (ap (λ x. delivered m.sink.sent ++ pending j endpoint x) e)
      ∙ h)
  Move-Complete m p q c v read (repeats n b e f) h = inr (
      ap (λ x. delivered m.sink.sent ++ pending j endpoint x) f
      ∙ sym (ap (λ x. delivered m.sink.sent ++ pending j endpoint x) e)
      ∙ h)

  read_arrived :
      (i : Input Value) (e : SourceEvent Value)
      → i ≡ next_item (arrived e)
      → read_by i ≡ to_observe j e.event
  read_arrived i e h = ap read_by h

  one_observed : (e : SourceEvent Value) → to_observe_all j (e ∷ []) ≡ to_observe j e.event
  unfolding to_observe_all
  one_observed e = append-nil (to_observe j e.event)

  -- An event that arrives in the bootstrap is held back.
  buffer-Complete :
      (n : EventJournal Value) (e : SourceEvent Value) (m : Server Value)
      (read : List ObservedEvent)
      → delivered m.sink.sent ++ to_observe_all j n.events ≡ read
      → Complete j endpoint
          (read ++ to_observe j e.event)
          (in_phase (bootstrapping (push_event e n)) m)
  unfolding push_event
  buffer-Complete n e m read h = inr (
      ap (λ zs. delivered m.sink.sent ++ zs) (to_observe_all-append j n.events (e ∷ []))
      ∙ sym (
          append_assoc (delivered m.sink.sent) (to_observe_all j n.events)
            (to_observe_all j (e ∷ [])))
      ∙ ap (λ zs. zs ++ to_observe_all j (e ∷ [])) h
      ∙ ap (λ zs. read ++ zs) (one_observed e))

  Effect-Complete :
      (m : Server Value) (p : Phase Value) (i : Input Value) (o : Option (Server Value))
      (read : List ObservedEvent)
      → m.phase ≡ p
      → delivered m.sink.sent ++ pending j endpoint p ≡ read
      → Effect j endpoint m p i o
      → AllComplete (read ++ read_by i) o
  Effect-Complete m p i o read at h (refuses e) =
      subst (AllComplete (read ++ read_by i)) (sym e) (tt)
  Effect-Complete m p i o read at h (moves q c v mv quiet e) =
      subst (AllComplete (read ++ read_by i)) (sym e) (
        still i read (record m { phase = q; coalesced = c; verification = v }) quiet
          (Move-Complete m p q c v read mv h))
  Effect-Complete m p i o read at h (opens quiet free e) =
      subst (AllComplete (read ++ read_by i)) (sym e) (
        still i read (open_stream j endpoint m) quiet (
          open_stream-Complete j endpoint m read (unpending p (delivered m.sink.sent) read free h)))
  Effect-Complete m p i o read at h (disconnects reason quiet free e) =
      subst (AllComplete (read ++ read_by i)) (sym e) (
        still i read (disconnect j endpoint reason m) quiet (
          disconnect-Complete j endpoint reason m read
            (inr (unpending p (delivered m.sink.sent) read free h))))
  Effect-Complete m p i o read at h (buffers n x a b c e) =
      subst (AllComplete (read ++ read_by i)) (sym e) (
        subst (λ xs. Complete j endpoint (read ++ xs) (in_phase (bootstrapping (push_event x n)) m))
          (sym (read_arrived i x b))
          (buffer-Complete n x m read
            (sym (ap (λ y. delivered m.sink.sent ++ pending j endpoint y) a) ∙ h)))
  Effect-Complete m p i o read at h (fails_early n x a quiet e) =
      subst (AllComplete (read ++ read_by i)) (sym e) (
        still i read (finish_bootstrap j endpoint n (some x) m) quiet (
          finish_bootstrap-Complete j endpoint n (some x) m read
            (sym (ap (λ y. delivered m.sink.sent ++ pending j endpoint y) a) ∙ h)))
  Effect-Complete m p i o read at h (bootstraps n r a quiet e) =
      subst (AllComplete (read ++ read_by i)) (sym e) (
        still i read (bootstrap_snapshot j endpoint n r m) quiet (
          bootstrap_snapshot-Complete j endpoint n r m read
            (sym (ap (λ y. delivered m.sink.sent ++ pending j endpoint y) a) ∙ h)))
  Effect-Complete m p i o read at h (handles x a free e) =
      subst (AllComplete (read ++ read_by i)) (sym e) (
        subst (λ xs. Complete j endpoint (read ++ xs) (live_event j endpoint x m))
          (sym (read_arrived i x a))
          (live_event-Complete j endpoint x m read (ap (pending j endpoint) at ∙ free_phase p free)
            (unpending p (delivered m.sink.sent) read free h)))
  Effect-Complete m p i o read at h (journals n r x a b c e) =
      subst (AllComplete (read ++ read_by i)) (sym e) (
        subst (λ xs. Complete j endpoint (read ++ xs) (reconcile_event j endpoint n r x m))
          (sym (read_arrived i x b))
          (reconcile_event-Complete j endpoint n r x m read (
            sym (append-nil (delivered m.sink.sent))
            ∙ sym (ap (λ y. delivered m.sink.sent ++ pending j endpoint y) a)
            ∙ h)))
  Effect-Complete m p i o read at h (reconciles n r x t a quiet e) =
      subst (AllComplete (read ++ read_by i)) (sym e) (
        still i read (reconcile_snapshot j endpoint n r x t m) quiet (
          reconcile_snapshot-Complete j endpoint n r x t m read (
            sym (append-nil (delivered m.sink.sent))
            ∙ sym (ap (λ y. delivered m.sink.sent ++ pending j endpoint y) a)
            ∙ h)))
  Effect-Complete m p i o read at h (looks g b v quiet free e) =
      subst (AllComplete (read ++ read_by i)) (sym e) (
        still i read (look (record m { verification = v }) g b) quiet (
          look-Complete j endpoint (record m { verification = v }) g b read
            (unpending p (delivered m.sink.sent) read free h)))

  step_ended : (i : Input Value) (m : Server Value) → m.phase ≡ ended → step j endpoint i m ≡ none
  unfolding step step_in
  step_ended i m h = rw (h, step, step_in) refl

  step-Complete :
      (i : Input Value) (m m' : Server Value) (read : List ObservedEvent)
      → step j endpoint i m ≡ some m'
      → Complete j endpoint read m
      → Complete j endpoint (read ++ read_by i) m'
  unfolding step
  step-Complete i m m' read e (inl over) = absurd (ground (arith, e, step_ended i m over))
  step-Complete i m m' read e (inr h) =
      subst (AllComplete (read ++ read_by i)) e
        (Effect-Complete m m.phase i _ read refl h (effect j endpoint m m.phase i))

  run-Complete :
      (is : List (Input Value)) (m m' : Server Value) (read : List ObservedEvent)
      → run j endpoint is m ≡ some m'
      → Complete j endpoint read m
      → Complete j endpoint (read ++ read_from is) m'
  unfolding run
  run-Complete [] m m' read e h =
      let same : m ≡ m' = ground (arith, e) in
      subst (λ x. Complete j endpoint (read ++ []) x) same
        (subst (λ xs. Complete j endpoint xs m) (sym (append-nil read)) h)
  run-Complete (i ∷ is) m m' read e h = elim (Option-cases (step j endpoint i m)) [
    | inl f ↦ absurd (ground (arith, e, f))
    | inr (n, f) ↦
        subst (λ xs. Complete j endpoint xs m') (append_assoc read (read_by i) (read_from is))
          (run-Complete is n m' (read ++ read_by i) (ground (arith, e, f))
            (step-Complete i m n read f h))
  ]

  nothing_delivered : delivered [] ++ [] ≡ []
  unfolding delivered
  nothing_delivered = refl

  -- Whatever inputs a server's task meets, reconnects included: unless the task has ended, the
  -- observed events that have arrived, followed by those that the bootstrap still holds back, are
  -- exactly the events read from the stream, in the stream's order, heartbeats left out.
  pub delivered_in_order :
      (key : InstanceKey) (room : ℕ) (verification : DiscoveryCompletion) (discovery : ℕ)
      (is : List (Input Value)) (m : Server Value)
      → run j endpoint is (start_server key room verification discovery) ≡ some m
      → (m.phase ≡ ended) ⊎ (delivered m.sink.sent ++ pending j endpoint m.phase ≡ read_from is)
  delivered_in_order key room verification discovery is m e =
      run-Complete is (start_server key room verification discovery) m [] e (inr nothing_delivered)
