-- ===== src/State/Frame.antt =====
-- What the attention and ready steps leave alone: the sessions and the pending requests.
use opencode_beacon.Prelude.Maps.{set_remove}
use opencode_beacon.Prelude.Sort.{sort_by}
use opencode_beacon.Prelude.Order.{str_cmp}
use opencode_beacon.State.Invariant.{IsWellFormed}
use opencode_beacon.Prelude.{String, Bool, Option, none, some, List, [], ◌∷◌, ◌≡◌, refl, ◌∙◌}
use opencode_beacon.Model.{TransitionSource}
use opencode_beacon.State.Record.{ServerState}
use opencode_beacon.State.Attention.{
  NewRequest, PendingKind, pending_permission, pending_question, mark_seen,
  new_live_request_attention, announce, unseen, new_snapshot_request_attention,
}
use opencode_beacon.State.Ready.{
  disarm, disarm_initially_idle_roots, take_ready_attention, idle_armed,
}
use opencode_beacon.State.Json.{Json}
use opencode_beacon.State.Reduce.{announce_live}

-- The two states have the same sessions and the same pending requests.
pub record SameData (s t : ServerState) : Type 0 where
  pub sessions : s.sessions ≡ t.sessions
  pub permissions : s.permissions ≡ t.permissions
  pub questions : s.questions ≡ t.questions

mark_seen-SameData :
    (k : PendingKind) (id : String) (s : ServerState) → SameData (mark_seen k id s) s
mark_seen-SameData pending_permission id s = record {
  sessions = refl;
  permissions = refl;
  questions = refl;
}
mark_seen-SameData pending_question id s = record {
  sessions = refl;
  permissions = refl;
  questions = refl;
}

pub trans : {s t u : ServerState} → SameData s t → SameData t u → SameData s u
trans a b = record {
  sessions = a.sessions ∙ b.sessions;
  permissions = a.permissions ∙ b.permissions;
  questions = a.questions ∙ b.questions;
}

pub announce-SameData :
    (k : PendingKind) (initial : Bool) (entries : List (String × String)) (s : ServerState)
    → SameData (announce k initial entries s).1 s
unfolding announce
announce-SameData k initial [] s = record { sessions = refl; permissions = refl; questions = refl }
announce-SameData k initial ((id, owner) ∷ rest) s =
    trans (announce-SameData k initial rest (mark_seen k id s)) (mark_seen-SameData k id s)

pub new_snapshot-SameData :
    (initial : Bool) (s : ServerState) → SameData (new_snapshot_request_attention initial s).1 s
unfolding new_snapshot_request_attention
new_snapshot-SameData initial s =
    let s' = (announce pending_question initial (unseen s.seen_questions s.questions) s).1 in
    trans
      (announce-SameData pending_permission initial (unseen s.seen_permissions s.permissions) s')
      (announce-SameData pending_question initial (unseen s.seen_questions s.questions) s)

pub announce_live-SameData :
    (j : Json) (s : ServerState) (r : Option NewRequest) → SameData (announce_live j s r).1 s
unfolding announce_live new_live_request_attention
announce_live-SameData j s none = record { sessions = refl; permissions = refl; questions = refl }
announce_live-SameData j s (some r) = mark_seen-SameData r.kind r.request_id s

pub disarm-SameData : (ids : List String) (s : ServerState) → SameData (disarm ids s) s
unfolding disarm
disarm-SameData [] s = record { sessions = refl; permissions = refl; questions = refl }
disarm-SameData (id ∷ ids) s =
    let rest = disarm-SameData ids (record s { ready_armed = set_remove id s.ready_armed }) in
    record { sessions = rest.sessions; permissions = rest.permissions; questions = rest.questions }

pub take_ready-SameData :
    (source : TransitionSource) (s : ServerState) → SameData (take_ready_attention source s).1 s
unfolding take_ready_attention
take_ready-SameData source s = disarm-SameData (sort_by str_cmp (idle_armed s)) s

pub disarm_initially-SameData : (s : ServerState) → SameData (disarm_initially_idle_roots s) s
unfolding disarm_initially_idle_roots
disarm_initially-SameData s = disarm-SameData (idle_armed s) s

pub SameData-IsWellFormed : {s t : ServerState} → SameData s t → IsWellFormed t → IsWellFormed s
SameData-IsWellFormed d v = rw (d.sessions, d.permissions, d.questions) v
