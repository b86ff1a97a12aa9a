-- ===== src/Monitor/Sink.antt =====
-- The event sink and the journal of a connection (src/monitor.rs, src/client.rs).
pub mod Counts
use opencode_beacon.Prelude.{
  ℕ, zero, suc, ◌+◌, ◌*◌, Bool, true, false, List, [], ◌∷◌, ◌++◌, ◌&&◌, ltb, leb, if◌then◌else◌,
  String, length,
}
use opencode_beacon.Model.{WireEvent}
use opencode_beacon.Events.{BeaconEvent}

-- `EventSink`: what has been sent, and how many more events the receiver takes before it closes
-- or a shutdown or a cancellation is asked for. From then on every `send` fails.
pub record EventSink : Type 0 where
  pub room : ℕ
  pub sent : List BeaconEvent

-- `send` of each event in turn, up to the first that fails; the flag is false for `EmitStopped`.
unfoldable pub send_all : List BeaconEvent → EventSink → EventSink × Bool
send_all [] k = (k, true)
send_all (e ∷ es) k = elim k.room [
  | zero ↦ (k, false)
  | suc room ↦ send_all es (record { room = room; sent = k.sent ++ (e ∷ []) })
]

pub record SourceEvent (V : Type 0) : Type 0 where
  pub event : WireEvent V
  pub source_bytes : ℕ

abbrev pub bootstrap_event_capacity : ℕ
bootstrap_event_capacity = 1024

abbrev pub max_buffered_source_bytes : ℕ
max_buffered_source_bytes = 8 * 1024 * 1024

pub record EventJournal (V : Type 0) : Type 0 where
  pub events : List (SourceEvent V)
  pub source_bytes : ℕ
  pub ready_emitted : List String

-- `EventJournal::default`
abbrev pub new_journal : {V : Type 0} → EventJournal V
new_journal = record { events = []; source_bytes = 0; ready_emitted = [] }

unfoldable pub can_poll : {V : Type 0} → EventJournal V → Bool
can_poll j =
    ltb (length j.events) bootstrap_event_capacity && ltb j.source_bytes max_buffered_source_bytes

-- `usize::saturating_add`
abbrev pub usize_max : ℕ
usize_max = 18446744073709551615

abbrev pub add_bytes : ℕ → ℕ → ℕ
add_bytes a b = if leb usize_max (a + b) then usize_max else a + b

-- `EventJournal::push`
unfoldable pub push_event : {V : Type 0} → SourceEvent V → EventJournal V → EventJournal V
push_event e j = record j {
  source_bytes = add_bytes j.source_bytes e.source_bytes;
  events = j.events ++ (e ∷ []);
}
