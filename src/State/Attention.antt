-- ===== src/State/Attention.antt =====
-- Attention events and their order: `request_attention`, `attention_event`,
-- `new_live_request_attention`, `new_snapshot_request_attention`, `attention_order`
-- (src/state.rs).
pub mod Once
use Prim.Native.Nat.{compare}
use mathlib.Core.Option
use opencode_beacon.Prelude.{
  ℕ, String, Bool, false, Option, none, some, List, [], ◌∷◌, ◌++◌, not, filter, filter_option,
  if◌then◌else◌,
}
use opencode_beacon.Prelude.Order.{Cmp, order_by, order_then, order_option, str_cmp}
use opencode_beacon.Prelude.Sort.{sort_by}
use opencode_beacon.Prelude.Maps.{Map, lookup, contains, set_insert}
use opencode_beacon.Model.{
  AttentionKind, ready, question, permission, AttentionEvent, TransitionSource, live, snapshot,
}
use opencode_beacon.State.Record.{SessionRecord, ServerState}
use opencode_beacon.State.Root.{resolve_root}

pub data PendingKind : Type 0 where
  pending_permission pending_question : PendingKind

pub record NewRequest : Type 0 where
  pub kind : PendingKind
  pub request_id : String
  pub subject_session_id : String

pub record AttentionContext : Type 0 where
  pub source : TransitionSource
  pub initial : Bool
  pub root_resolved : Bool

unfoldable pub attention_event :
    Map SessionRecord
    → AttentionKind
    → String
    → String
    → Option String
    → AttentionContext
    → AttentionEvent
attention_event m kind root_session_id subject_session_id request_id context =
    let root = filter_option (λ r. r.metadata_known) (lookup root_session_id m) in
    record {
      kind = kind;
      root_session_id = root_session_id;
      root_title = Option.map (λ r. r.title) root;
      root_slug = Option.map (λ r. r.slug) root;
      subject_session_id = subject_session_id;
      request_id = request_id;
      source = context.source;
      initial = context.initial;
      root_resolved = context.root_resolved;
    }

abbrev pub attention_kind : PendingKind → AttentionKind
attention_kind pending_permission = permission
attention_kind pending_question = question

unfoldable pub request_attention :
    Map SessionRecord → PendingKind → String → String → TransitionSource → Bool → AttentionEvent
unfolding attention_event
request_attention m kind subject_session_id request_id source initial =
    let (root_session_id, root_resolved) = resolve_root m subject_session_id in
    attention_event m (attention_kind kind) root_session_id subject_session_id (some request_id)
      (record { source = source; initial = initial; root_resolved = root_resolved })

-- The identifiers of a kind that have been announced, and the state with one more of them.
abbrev pub seen : PendingKind → ServerState → List String
seen pending_permission s = s.seen_permissions
seen pending_question s = s.seen_questions

abbrev pub mark_seen : PendingKind → String → ServerState → ServerState
mark_seen pending_permission id s = record s { seen_permissions = set_insert id s.seen_permissions }
mark_seen pending_question id s = record s { seen_questions = set_insert id s.seen_questions }

unfoldable pub new_live_request_attention :
    ServerState → NewRequest → Option AttentionEvent × ServerState
unfolding request_attention contains set_insert
new_live_request_attention s r =
    let first_seen = not (contains (seen r.kind s) r.request_id) in
    (
      if first_seen
          then some
              (request_attention s.sessions r.kind r.subject_session_id r.request_id live false)
          else none,
      mark_seen r.kind r.request_id s,
    )

-- One of the two loops of `new_snapshot_request_attention`.
unfoldable pub announce :
    PendingKind → Bool → List (String × String) → ServerState → List AttentionEvent × ServerState
unfolding request_attention set_insert
announce kind initial [] s = ([], s)
announce kind initial ((request_id, session_id) ∷ rest) s =
    let (events, s') = announce kind initial rest (mark_seen kind request_id s) in
    (request_attention s.sessions kind session_id request_id snapshot initial ∷ events, s')

-- `(String, String)` by `Ord`
unfoldable pub entry_order : Cmp (String × String)
unfolding order_then order_by
entry_order = order_then (order_by (λ e. e.0) str_cmp) (order_by (λ e. e.1) str_cmp)

unfoldable pub unseen : List String → Map String → List (String × String)
unfolding sort_by entry_order filter
unseen known m = sort_by entry_order (filter (λ e. not (contains known e.0)) m)

unfoldable pub new_snapshot_request_attention :
    Bool → ServerState → List AttentionEvent × ServerState
unfolding unseen announce
new_snapshot_request_attention initial s =
    let new_permissions = unseen s.seen_permissions s.permissions in
    let new_questions = unseen s.seen_questions s.questions in
    let (questions, s') = announce pending_question initial new_questions s in
    let (permissions, s'') = announce pending_permission initial new_permissions s' in
    (questions ++ permissions, s'')

abbrev pub kind_rank : AttentionKind → ℕ
kind_rank ready = 0
kind_rank question = 1
kind_rank permission = 2

unfoldable pub attention_order : Cmp AttentionEvent
unfolding order_then order_by order_option
attention_order = order_then (order_by (λ a. a.root_session_id) str_cmp) (
    order_then (order_by (λ a. kind_rank a.kind) compare) (
      order_then (order_by (λ a. a.request_id) (order_option str_cmp))
        (order_by (λ a. a.subject_session_id) str_cmp)))
