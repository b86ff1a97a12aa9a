-- ===== src/Model.antt =====
-- Protocol values and public events: src/model.rs. Paths and identifiers are texts, `u64` and
-- `u32` values are numbers.
pub mod Keys
use opencode_beacon.Prelude.{
  ℕ, String, Bool, Option, List, ◌==◌, not, eqb, or_else, filter_option, unwrap_or, if◌then◌else◌,
}
use opencode_beacon.Prelude.Maps.{Map}

-- `std::net::SocketAddr`: four octets, or the 128-bit address as one number; the
-- port; and of an IPv6 socket the flow information and the scope identifier.
pub data SocketAddr : Type 0 where
  v4 : ℕ → ℕ → ℕ → ℕ → ℕ → SocketAddr
  v6 : ℕ → ℕ → ℕ → ℕ → SocketAddr

-- `address.ip().is_loopback()`: 127.0.0.0/8 and ::1
unfoldable pub is_loopback : SocketAddr → Bool
is_loopback (v4 a b c d port) = eqb a 127
is_loopback (v6 address port flowinfo scope_id) = eqb address 1

pub record ServerEndpoint : Type 0 where
  pub socket : SocketAddr

pub data EndpointResult : Type 0 where
  accepted : ServerEndpoint → EndpointResult
  not_loopback : SocketAddr → EndpointResult

unfoldable pub endpoint_new : SocketAddr → EndpointResult
unfolding is_loopback
endpoint_new address =
    if is_loopback address then accepted (record { socket = address }) else not_loopback address

pub data InstanceSource : Type 0 where
  linux_procfs : InstanceSource
  managed_service : String → Option String → InstanceSource

pub data OpenCodeProtocol : Type 0 where
  protocol_v1 protocol_v2 : OpenCodeProtocol

pub record InstanceKey : Type 0 where
  pub network_namespace_inode : ℕ
  pub socket_inode : ℕ
  pub listener : SocketAddr
  pub pid : ℕ
  pub source : InstanceSource

pub record ServerInstance : Type 0 where
  pub key : InstanceKey
  pub endpoint : ServerEndpoint
  pub protocol : OpenCodeProtocol
  pub executable : Option String
  pub version : String

pub data ActivityState : Type 0 where
  waiting_for_input waiting_for_permission retrying working idle_activity : ActivityState

pub data SessionStatus : Type 0 where
  idle busy : SessionStatus
  retry : ℕ → String → ℕ → SessionStatus
  unknown : SessionStatus

pub record Session : Type 0 where
  pub id : String
  pub title : String
  pub slug : String
  pub parent_id : Option String
  pub project_id : Option String
  pub directory : Option String
  pub workspace : Option String
  pub updated : Option ℕ

pub record PermissionRequest : Type 0 where
  pub id : String
  pub session_id : String

pub record QuestionRequest : Type 0 where
  pub id : String
  pub session_id : String

pub record Snapshot : Type 0 where
  pub sessions : List Session
  pub statuses : Map SessionStatus
  pub permissions : List PermissionRequest
  pub questions : List QuestionRequest

pub data ProjectedStatus : Type 0 where
  projected_idle projected_busy projected_retry projected_unknown : ProjectedStatus

unfoldable pub project_status : SessionStatus → ProjectedStatus
project_status idle = projected_idle
project_status busy = projected_busy
project_status (retry attempt message next) = projected_retry
project_status unknown = projected_unknown

pub record ProjectedSession : Type 0 where
  pub id : String
  pub title : String
  pub slug : String
  pub parent_id : Option String
  pub project_id : Option String
  pub directory : Option String
  pub workspace : Option String
  pub updated : Option ℕ
  pub status : ProjectedStatus
  pub pending_permission_ids : List String
  pub pending_question_ids : List String

-- One event of the stream; `V` is the type of JSON values.
pub record WireEvent (V : Type 0) : Type 0 where
  pub kind : String
  pub properties : V

pub data TransitionSource : Type 0 where
  live snapshot : TransitionSource

pub record StateTransition : Type 0 where
  pub session_id : String
  pub previous : ActivityState
  pub current : ActivityState
  pub source : TransitionSource

pub record ObservedEvent : Type 0 where
  pub kind : String
  pub session_id : Option String
  pub request_id : Option String
  pub detail : Option String

pub data AttentionKind : Type 0 where
  ready question permission : AttentionKind

pub record AttentionEvent : Type 0 where
  pub kind : AttentionKind
  pub root_session_id : String
  pub root_title : Option String
  pub root_slug : Option String
  pub subject_session_id : String
  pub request_id : Option String
  pub source : TransitionSource
  pub initial : Bool
  pub root_resolved : Bool

non_empty : String → Bool
non_empty s = not (s == "")

-- `AttentionEvent::name`
unfoldable pub attention_name : AttentionEvent → String
unfolding non_empty
attention_name a =
    unwrap_or (or_else (filter_option non_empty a.root_title) (filter_option non_empty a.root_slug))
      a.root_session_id
