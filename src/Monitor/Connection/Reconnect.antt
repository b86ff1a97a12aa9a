-- ===== src/Monitor/Connection/Reconnect.antt =====
-- When a server's task connects again (src/monitor.rs).
use mathlib.Core.Path.{subst}
use opencode_beacon.Prelude.{
  ℕ, ◌++◌, map, ◌<◌, Bool, true, false, Option, some, List, [], ◌∷◌, ◌≡◌, refl, sym, arith, ap,
  Bool-cases, Option-cases, inl, inr, ◌⊎◌, ◌∙◌,
}
use opencode_beacon.Model.{ServerEndpoint, InstanceKey}
use opencode_beacon.Model.Keys.{instance_eq, instance_eq_iff}
use opencode_beacon.State.Json.{Json}
use opencode_beacon.Monitor.Pass.{DiscoveryCompletion}
use opencode_beacon.Monitor.Connection.{
  Input, delay_elapsed, verified, snapshot_done, stop, stream_opened, stream_refused, next_item,
  arrived, stream_error, stream_end, periodic_tick, resync_changed, resync_closed, coalesce_elapsed,
  verification_closed, in_phase, ended, Phase, connecting, waiting, Server, look, may_reconnect,
  step, step_in, next_attempt, in_phase, next_item, ended, arrived, stream_error, stream_refused,
  snapshot_done, map,
}
use opencode_beacon.Monitor.Connection.Runs.{run}

-- A discovery pass that began after the disconnect has found this very instance again.
pub record IsVerified (c : DiscoveryCompletion) (key : Option InstanceKey) (g : ℕ) : Type 0 where
  pub found : InstanceKey
  pub completed : c.key ≡ some found
  pub same_instance : key ≡ some found
  pub later : g < c.generation

is_connecting : {V : Type 0} → Phase V → Bool
is_connecting connecting = true
is_connecting _ = false

module _ {V : Type 0} where
  may_reconnect-IsVerified :
      (m : Server V) (g : ℕ) (b : Bool)
      → may_reconnect m g b ≡ true
      → IsVerified m.verification m.connection.instance_key_ g × (b ≡ true)
  unfolding may_reconnect
  may_reconnect-IsVerified m g b h = elim (Option-cases m.verification.key) [
    | inl e ↦ absurd (ground (arith, h, e))
    | inr (k, e) ↦ elim (Option-cases m.connection.instance_key_) [
      | inl f ↦ absurd (ground (arith, h, e, f))
      | inr (l, f) ↦ elim (Bool-cases (instance_eq k l)) [
        | inr other ↦ absurd (ground (arith, h, e, f, other))
        | inl same ↦ (
          record {
            found = k;
            completed = e;
            same_instance = f ∙ ap some (sym ((instance_eq_iff k l).0 same));
            later = ground (arith, h, e, f, same);
          },
          ground (arith, h, e, f, same),
        )
      ]
    ]
  ]

  look-connecting :
      (m : Server V) (g : ℕ) (b : Bool)
      → (look m g b).phase ≡ connecting
      → may_reconnect m g b ≡ true
  unfolding look
  look-connecting m g b e = elim (Bool-cases (may_reconnect m g b)) [
    | inl ready ↦ ready
    | inr not_ready ↦
        let waits : (look m g b).phase ≡ waiting g b = rw (not_ready, look) refl in
        absurd (let x = ap is_connecting (sym e ∙ waits) in ground (arith, x))
  ]

  look-attempt :
      (m : Server V) (g : ℕ) (b : Bool)
      → may_reconnect m g b ≡ true
      → look m g b ≡ record m {
        phase = connecting;
        coalesced = false;
        connection = record m.connection {
          reconnect_attempt = next_attempt m.connection.reconnect_attempt;
        };
      }
  unfolding look
  look-attempt m g b ready = rw (ready, look) refl

unfoldable last_of : {A : Type 0} → A → List A → A
last_of a [] = a
last_of a (b ∷ bs) = last_of b bs

-- What a wait that ends in a new connection was waiting for.
pub record IsReconnect {V : Type 0} (i : Input V) (g : ℕ) (b : Bool) (m m' : Server V)
    : Type 0 where
  pub again : IsVerified m'.verification m.connection.instance_key_ g
  pub delayed : (b ≡ true) ⊎ (i ≡ delay_elapsed)
  pub attempt : m'.connection.reconnect_attempt ≡ next_attempt m.connection.reconnect_attempt
  pub same_sink : m'.sink ≡ m.sink

ends :
    {V : Type 0} (m m' : Server V) → some (in_phase ended m) ≡ some m' → m'.phase ≡ connecting → ⊥
ends m m' h at =
    let same : in_phase ended m ≡ m' = ground (arith, h) in
    let x = ap is_connecting (ap (λ n. n.phase) same ∙ at) in ground (arith, x)

look-IsReconnect :
    {V : Type 0} (i : Input V) (g : ℕ) (b e : Bool) (v : DiscoveryCompletion) (m m' : Server V)
    → ((e ≡ true) → (b ≡ true) ⊎ (i ≡ delay_elapsed))
    → some (look (record m { verification = v }) g e) ≡ some m'
    → m'.phase ≡ connecting
    → IsReconnect i g b m m'
look-IsReconnect i g b e v m m' over h at =
    let n = record m { verification = v } in
    let same : look n g e ≡ m' = ground (arith, h) in
    let ready = look-connecting n g e (ap (λ x. x.phase) same ∙ at) in
    let (found, passed) = may_reconnect-IsVerified n g e ready in
    subst (IsReconnect i g b m) (sym (look-attempt n g e ready) ∙ same)
      (record { again = found; delayed = over passed; attempt = refl; same_sink = refl })

module _ (j : Json) (endpoint : ServerEndpoint) where
  open j use {Value}

  wait-IsReconnect :
      (i : Input Value) (g : ℕ) (b : Bool) (m m' : Server Value)
      → step_in j endpoint (waiting g b) i m ≡ some m'
      → m'.phase ≡ connecting
      → IsReconnect i g b m m'
  unfolding step_in
  wait-IsReconnect delay_elapsed g false m m' h at =
      look-IsReconnect delay_elapsed g false true m.verification m m' (λ e. inr refl) h at
  wait-IsReconnect delay_elapsed g true m m' h at = absurd (ground (arith, h))
  wait-IsReconnect (verified c) g b m m' h at =
      look-IsReconnect (verified c) g b b c m m' (λ e. inl e) h at
  wait-IsReconnect stop g b m m' h at = absurd (ends m m' h at)
  wait-IsReconnect verification_closed g b m m' h at = absurd (ends m m' h at)
  wait-IsReconnect (next_item (arrived e)) g b m m' h at = absurd (ground (arith, h))
  wait-IsReconnect (next_item (stream_error e)) g b m m' h at = absurd (ground (arith, h))
  wait-IsReconnect (next_item stream_end) g b m m' h at = absurd (ground (arith, h))
  wait-IsReconnect stream_opened g b m m' h at = absurd (ground (arith, h))
  wait-IsReconnect (stream_refused e) g b m m' h at = absurd (ground (arith, h))
  wait-IsReconnect (snapshot_done r t) g b m m' h at = absurd (ground (arith, h))
  wait-IsReconnect periodic_tick g b m m' h at = absurd (ground (arith, h))
  wait-IsReconnect resync_changed g b m m' h at = absurd (ground (arith, h))
  wait-IsReconnect resync_closed g b m m' h at = absurd (ground (arith, h))
  wait-IsReconnect coalesce_elapsed g b m m' h at = absurd (ground (arith, h))

  -- A step from the wait after a disconnect leads to a new connection only when the latest completed
  -- discovery pass found the very instance that the task serves, that pass has a generation later
  -- than the one at the disconnect, and the delay is over, before this step or by it; the step
  -- counts one more attempt and sends nothing.
  pub reconnects_when_verified :
      (i : Input Value) (g : ℕ) (b : Bool) (m m' : Server Value)
      → m.phase ≡ waiting g b
      → step j endpoint i m ≡ some m'
      → m'.phase ≡ connecting
      → IsReconnect i g b m m'
  unfolding step
  reconnects_when_verified i g b m m' before h at =
      wait-IsReconnect i g b m m' (sym (ap (λ p. step_in j endpoint p i m) before) ∙ h) at

  -- The task as it connects again after the completion.
  abbrev pub reconnected : DiscoveryCompletion → Server Value → Server Value
  reconnected c m = record m {
    phase = connecting;
    coalesced = false;
    verification = c;
    connection = record m.connection {
      reconnect_attempt = next_attempt m.connection.reconnect_attempt;
    };
  }

  verified-may_reconnect :
      (m : Server Value) (g : ℕ)
      → IsVerified m.verification m.connection.instance_key_ g
      → may_reconnect m g true ≡ true
  unfolding may_reconnect
  verified-may_reconnect m g v =
      let same = (instance_eq_iff v.found v.found).1 refl in
      ground (arith, v.completed, v.same_instance, v.later, same)

  too_early : (m : Server Value) (g : ℕ) → may_reconnect m g false ≡ false
  unfolding may_reconnect
  too_early m g = ground arith

  look_early : (m : Server Value) (g : ℕ) → look m g false ≡ in_phase (waiting g false) m
  unfolding look
  look_early m g = rw (too_early m g, look) refl

  -- After the delay, a completion that verifies the instance.
  after_delay :
      (m : Server Value) (g : ℕ) (c : DiscoveryCompletion)
      → IsVerified c m.connection.instance_key_ g
      → run j endpoint (verified c ∷ []) (look m g true) ≡ some (reconnected c m)
  unfolding run step step_in look
  after_delay m g c v = elim (Bool-cases (may_reconnect m g true)) [
    | inl ready ↦ rw (ready, run, step, step_in, look) refl
    | inr not_ready ↦
        let n = record m { verification = c } in
        rw (not_ready, look, run, step, step_in, verified-may_reconnect n g v) refl
  ]

  from_wait :
      (m : Server Value) (g : ℕ) (c : DiscoveryCompletion)
      → IsVerified c m.connection.instance_key_ g
      → (run j endpoint (delay_elapsed ∷ verified c ∷ []) (in_phase (waiting g false) m)
          ≡ some (reconnected c m))
        × (run j endpoint (verified c ∷ delay_elapsed ∷ []) (in_phase (waiting g false) m)
            ≡ some (reconnected c m))
  unfolding run step step_in
  from_wait m g c v =
      let n = record m { verification = c } in
      (
        after_delay (in_phase (waiting g false) m) g c v,
        (let waits = look_early (in_phase (waiting g false) n) g in
            let looks =
              look-attempt (in_phase (waiting g false) n) g true (verified-may_reconnect n g v) in
            ap (λ x. run j endpoint (delay_elapsed ∷ []) x) waits ∙ ap some looks),
      )

  -- Completions that come before the delay is over change nothing else.
  early :
      (cs : List DiscoveryCompletion) (m : Server Value) (g : ℕ) (is : List (Input Value))
      → run j endpoint (map verified cs ++ is) (in_phase (waiting g false) m)
        ≡ run j endpoint is
            (in_phase (waiting g false) (record m { verification = last_of m.verification cs }))
  unfolding run step step_in last_of
  early [] m g is = refl
  early (c ∷ cs) m g is =
      let n = record m { verification = c } in
      ap (λ x. run j endpoint (map verified cs ++ is) x)
        (look_early (in_phase (waiting g false) n) g)
      ∙ early cs n g is

  wait_phase :
      (m : Server Value) (g : ℕ) → m.phase ≡ waiting g false → in_phase (waiting g false) m ≡ m
  wait_phase m g e = ap (λ p. in_phase p m) (sym e)

  -- A task that waits after a disconnect connects again, with one more attempt counted, once the
  -- delay is over and a pass of a later generation has found its instance, in whichever order the
  -- two come and whatever passes completed before them.
  pub reconnects :
      (m : Server Value) (g : ℕ) (cs : List DiscoveryCompletion) (c : DiscoveryCompletion)
      → m.phase ≡ waiting g false
      → IsVerified c m.connection.instance_key_ g
      → (run j endpoint (map verified cs ++ (delay_elapsed ∷ verified c ∷ [])) m
          ≡ some (reconnected c m))
        × (run j endpoint (map verified cs ++ (verified c ∷ delay_elapsed ∷ [])) m
            ≡ some (reconnected c m))
  reconnects m g cs c at v =
      let n = record m { verification = last_of m.verification cs } in
      let (first, second) = from_wait n g c v in
      subst
        (λ x.
          (run j endpoint (map verified cs ++ (delay_elapsed ∷ verified c ∷ [])) x
            ≡ some (reconnected c m))
          × (run j endpoint (map verified cs ++ (verified c ∷ delay_elapsed ∷ [])) x
              ≡ some (reconnected c m)))
        (wait_phase m g at)
        (
          early cs m g (delay_elapsed ∷ verified c ∷ []) ∙ first,
          early cs m g (verified c ∷ delay_elapsed ∷ []) ∙ second,
        )
