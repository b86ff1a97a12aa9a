-- ===== src/Events.antt =====
-- Claude session values and the events of the monitor: the second half of src/model.rs.
use opencode_beacon.Prelude.{
  ℕ, String, Bool, true, Option, List, ◌==◌, not, ◌&&◌, eqb, or_else, filter_option, unwrap_or, ◌≡◌,
  ◌↔◌, arith,
}
use opencode_beacon.Prelude.Table.{Key}
use opencode_beacon.Model.{
  ServerInstance, ServerEndpoint, InstanceKey, ObservedEvent, StateTransition, AttentionEvent,
  AttentionKind, ProjectedSession,
}

pub record ServerProjection : Type 0 where
  pub instance_key : InstanceKey
  pub endpoint : ServerEndpoint
  pub sessions : List ProjectedSession

pub record ClaudeSessionKey : Type 0 where
  pub pid : ℕ
  pub start_time : ℕ

-- `==` on the keys
unfoldable pub claude_key_eq : ClaudeSessionKey → ClaudeSessionKey → Bool
claude_key_eq a b = eqb a.pid b.pid && eqb a.start_time b.start_time

pub claude_key_eq_iff : (a b : ClaudeSessionKey) → (claude_key_eq a b ≡ true) ↔ (a ≡ b)
unfolding claude_key_eq
claude_key_eq_iff a b = ground arith

abbrev pub claude_key : Key ClaudeSessionKey
claude_key = record { same = claude_key_eq; same_iff = claude_key_eq_iff }

pub record ClaudeSession : Type 0 where
  pub key : ClaudeSessionKey
  pub session_id : String
  pub cwd : String
  pub name : Option String
  pub has_tty : Bool

non_empty : String → Bool
non_empty s = not (s == "")

-- `ClaudeSession::display_name`; `file_name` stands for `cwd.file_name()` as UTF-8 text
unfoldable pub display_name : (String → Option String) → ClaudeSession → String
unfolding non_empty
display_name file_name s =
    unwrap_or (filter_option non_empty (or_else (filter_option non_empty s.name) (file_name s.cwd)))
      s.session_id

pub data ClaudeStatus : Type 0 where
  claude_busy claude_waiting claude_idle claude_unknown : ClaudeStatus

abbrev pub claude_rank : ClaudeStatus → ℕ
claude_rank claude_busy = 0
claude_rank claude_waiting = 1
claude_rank claude_idle = 2
claude_rank claude_unknown = 3

unfoldable pub claude_status_eq : ClaudeStatus → ClaudeStatus → Bool
claude_status_eq a b = eqb (claude_rank a) (claude_rank b)

pub claude_status_eq_iff : (a b : ClaudeStatus) → (claude_status_eq a b ≡ true) ↔ (a ≡ b)
unfolding claude_status_eq
claude_status_eq_iff a b = ground arith

pub record ClaudeTransition : Type 0 where
  pub session : ClaudeSession
  pub previous : ClaudeStatus
  pub current : ClaudeStatus

pub record ClaudeProjection : Type 0 where
  pub session : ClaudeSession
  pub status : ClaudeStatus
  pub stale : Bool

pub record ClaudeAttentionEvent : Type 0 where
  pub kind : AttentionKind
  pub session : ClaudeSession
  pub initial : Bool

pub data BeaconEvent : Type 0 where
  server_found server_removed : ServerInstance → BeaconEvent
  connected : ServerEndpoint → BeaconEvent
  disconnected : ServerEndpoint → String → BeaconEvent
  initial_state : ServerEndpoint → ℕ → BeaconEvent
  observed : ServerEndpoint → ObservedEvent → BeaconEvent
  transition : ServerEndpoint → StateTransition → BeaconEvent
  attention : ServerEndpoint → AttentionEvent → BeaconEvent
  state_projection : ServerProjection → BeaconEvent
  claude_session_found claude_session_removed : ClaudeSession → BeaconEvent
  claude_transition : ClaudeTransition → BeaconEvent
  claude_attention : ClaudeAttentionEvent → BeaconEvent
  claude_state_projection : ClaudeProjection → BeaconEvent
  diagnostic : Option ServerEndpoint → String → Bool → BeaconEvent
