-- ===== src/Tests/Connection.antt =====
-- A server's task that connects, reconciles, loses its stream and connects again.
use opencode_beacon.Prelude.{
  ◌≤◌, true, false, Option, none, some, List, [], ◌∷◌, ◌++◌, ◌≡◌, ◌⊎◌, refl, arith, count, map,
  is_some,
}
use opencode_beacon.Model.{InstanceKey, ServerEndpoint, linux_procfs, v4}
use opencode_beacon.State.Attention.{pending_permission}
use opencode_beacon.State.Attention.Once.{to_nat, announces}
use opencode_beacon.Prelude.Order.{str_cmp}
use opencode_beacon.Monitor.Pass.{DiscoveryCompletion}
use opencode_beacon.Monitor.Live.{received}
use opencode_beacon.Monitor.Connection.{
  arrived, stream_end, Triggers, Input, stream_opened, next_item, snapshot_done, coalesce_elapsed,
  delay_elapsed, verified, waiting, ended, Server, step,
}
use opencode_beacon.Monitor.Connection.Runs.{start_server, run}
use opencode_beacon.Monitor.Connection.Once.{announces_request, announced_once_for_life}
use opencode_beacon.Monitor.Connection.Initial.{is_initial, initial_state_once}
use opencode_beacon.Monitor.Connection.Delivered.{delivered}
use opencode_beacon.Monitor.Connection.Complete.{pending}
use opencode_beacon.Monitor.Connection.Order.{read_from, delivered_in_order}
use opencode_beacon.Monitor.Connection.Bounds.{AllWithin, HasSmallJournal, journals_bounded}
use opencode_beacon.Monitor.Connection.Reconnect.{
  IsVerified, IsReconnect, reconnects_when_verified, reconnected, reconnects,
}
use opencode_beacon.Tests.Sample.{Doc, sample, created_root, root_idle, asked, snap}

abbrev unwrap : {A : Type 0} → A → Option A → A
unwrap a none = a
unwrap a (some b) = b

some-unwrap : {A : Type 0} (a : A) (o : Option A) → is_some o ≡ true → o ≡ some (unwrap a o)
some-unwrap a none h = absurd (ground (arith, h))
some-unwrap a (some b) h = refl

abbrev key : InstanceKey
key = record {
  network_namespace_inode = 1;
  socket_inode = 2;
  listener = v4 127 0 0 1 4096;
  pid = 7;
  source = linux_procfs;
}

abbrev endpoint : ServerEndpoint
endpoint = record { socket = v4 127 0 0 1 4096 }

abbrev never : DiscoveryCompletion
never = record { generation = 0; key = none }

abbrev found : DiscoveryCompletion
found = record { generation = 3; key = some key }

abbrev quiet : Triggers
quiet = record { periodic_ready = false; manual_ready = some false; coalesced_ready = false }

abbrev start : Server Doc
start = start_server key 100 never 0

abbrev inputs : List (Input Doc)
inputs =
    stream_opened
    ∷ next_item (arrived (record { event = created_root; source_bytes = 40 }))
    ∷ snapshot_done (received snap) quiet
    ∷ next_item (arrived (record { event = asked; source_bytes = 30 }))
    ∷ coalesce_elapsed
    ∷ next_item (arrived (record { event = root_idle; source_bytes = 20 }))
    ∷ []

abbrev later : List (Input Doc)
later =
    snapshot_done (received snap) quiet
    ∷ next_item stream_end
    ∷ verified never
    ∷ delay_elapsed
    ∷ verified found
    ∷ []

-- Where the inputs lead from the start.
abbrev reached : List (Input Doc) → Server Doc
reached is = unwrap start (run sample endpoint is start)

ran : run sample endpoint inputs start ≡ some (reached inputs)
unfolding run str_cmp
ran = some-unwrap start (run sample endpoint inputs start) refl

ran_later : run sample endpoint (inputs ++ later) start ≡ some (reached (inputs ++ later))
unfolding run str_cmp
ran_later = some-unwrap start (run sample endpoint (inputs ++ later) start) refl

-- The permission is announced by the first snapshot, and not by the event that asks for it.
announced_run : count (announces_request pending_permission "per_1") (reached inputs).sink.sent ≡ 1
unfolding run count announces_request announces str_cmp
announced_run = refl

announced_once_for_life_example :
    count (announces_request pending_permission "per_1") (reached inputs).sink.sent ≤ 1
announced_once_for_life_example =
    announced_once_for_life sample endpoint pending_permission "per_1" key 100 never 0 inputs
      (reached inputs) ran

initial_state_once_example :
    count is_initial (reached (inputs ++ later)).sink.sent
    ≡ to_nat (reached (inputs ++ later)).connection.initialized
initial_state_once_example =
    initial_state_once sample endpoint key 100 never 0 (inputs ++ later) (reached (inputs ++ later))
      ran_later

delivered_in_order_example :
    ((reached inputs).phase ≡ ended)
    ⊎ (delivered (reached inputs).sink.sent ++ pending sample endpoint (reached inputs).phase
        ≡ read_from sample endpoint inputs)
delivered_in_order_example =
    delivered_in_order sample endpoint key 100 never 0 inputs (reached inputs) ran

small_events : AllWithin sample endpoint 40 inputs
small_events = (tt, (omega arith, (tt, (omega arith, (tt, (omega arith, tt))))))

journals_bounded_example : HasSmallJournal sample endpoint 40 (reached inputs).phase
journals_bounded_example =
    journals_bounded sample endpoint 40 key 100 never 0 inputs (reached inputs) small_events ran

abbrev waits : Server Doc
waits = record start { phase = waiting 2 false }

found-IsVerified : IsVerified found (some key) 2
found-IsVerified = record {
  found = key;
  completed = refl;
  same_instance = refl;
  later = omega arith;
}

reconnects_example :
    (run sample endpoint (map verified (never ∷ []) ++ (delay_elapsed ∷ verified found ∷ [])) waits
      ≡ some (reconnected sample endpoint found waits))
    × (run sample endpoint
          (map verified (never ∷ []) ++ (verified found ∷ delay_elapsed ∷ []))
          waits
        ≡ some (reconnected sample endpoint found waits))
reconnects_example = reconnects sample endpoint waits 2 (never ∷ []) found refl found-IsVerified

verified_step :
    step sample endpoint (verified found) (record start { phase = waiting 2 true })
    ≡ some (reconnected sample endpoint found waits)
unfolding step
verified_step = refl

reconnects_when_verified_example :
    IsReconnect
      (verified found)
      2
      true
      (record start { phase = waiting 2 true })
      (reconnected sample endpoint found waits)
reconnects_when_verified_example =
    reconnects_when_verified sample endpoint (verified found) 2 true
      (record start { phase = waiting 2 true }) (reconnected sample endpoint found waits) refl
      verified_step refl
