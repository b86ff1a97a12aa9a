-- ===== src/Monitor/Connection/Runs.antt =====
-- Runs of a server's task: the steps for a sequence of inputs, from its start (src/monitor.rs).
use mathlib.Core.Path.{subst}
use opencode_beacon.Prelude.{
  ℕ, false, Option, none, some, List, [], ◌∷◌, ◌≡◌, Option-cases, inl, inr, arith,
}
use opencode_beacon.Model.{InstanceKey, ServerEndpoint}
use opencode_beacon.State.Record.{default_state}
use opencode_beacon.State.Json.{Json}
use opencode_beacon.Monitor.Pass.{DiscoveryCompletion}
use opencode_beacon.Monitor.Connection.{Input, connecting, Server, step}

-- The task when `run_server` enters its loop.
abbrev pub start_server : {V : Type 0} → InstanceKey → ℕ → DiscoveryCompletion → ℕ → Server V
start_server key room verification discovery = record {
  connection = record {
    reducer = default_state;
    initialized = false;
    reconnect_attempt = 0;
    instance_key_ = some key;
  };
  sink = record { room = room; sent = [] };
  coalesced = false;
  phase = connecting;
  verification = verification;
  discovery = discovery;
}

module _ (j : Json) (endpoint : ServerEndpoint) where
  open j use {Value}

  -- `none` where some input is not waited for.
  unfoldable pub run : List (Input Value) → Server Value → Option (Server Value)
  unfolding step
  run [] m = some m
  run (i ∷ is) m = elim (step j endpoint i m) [ none ↦ none | some m' ↦ run is m' ]

  -- What every step keeps holds after every run.
  pub run-keeps :
      (P : Server Value → Type 0)
      → ((i : Input Value) (m m' : Server Value) → step j endpoint i m ≡ some m' → P m → P m')
      → (is : List (Input Value)) (m m' : Server Value) → run is m ≡ some m'
      → P m
      → P m'
  unfolding run
  run-keeps P kept [] m m' e h = subst P (ground (arith, e)) h
  run-keeps P kept (i ∷ is) m m' e h = elim (Option-cases (step j endpoint i m)) [
    | inl f ↦ absurd (ground (arith, e, f))
    | inr (n, f) ↦ run-keeps P kept is n m' (ground (arith, e, f)) (kept i m n f h)
  ]
