-- ===== src/State/Invariant.antt =====
-- The well-formedness of a server's state: one entry for each key, and an index of pending
-- requests that agrees with the sets in the session records. Every operation keeps it.
pub mod Operations
pub mod Steps
use opencode_beacon.Prelude.{
  String, Option, none, some, List, [], ◌∷◌, ◌≡◌, refl, ◌∙◌, Bool-cases, ◌==◌, inl, inr,
}
use opencode_beacon.Prelude.Maps.{
  Map, lookup, insert, remove, modify, modify_entry, HasUniqueKeys, set_insert, set_remove,
  remove-HasUniqueKeys, insert-HasUniqueKeys, modify-HasUniqueKeys, modify_entry-HasUniqueKeys,
}
use opencode_beacon.Model.{Session, SessionStatus, PermissionRequest, QuestionRequest}
use opencode_beacon.State.Record.{
  SessionRecord, default_record, ServerState, default_state, update_metadata,
}
use opencode_beacon.State.Pending.{
  upsert_permission, upsert_question, remove_permission, remove_question, delete_session,
  remove_all, requests_of, add_permission, drop_permission, add_question, drop_question,
  leave_previous, leave_owner,
}
use opencode_beacon.State.Pending.Holds.{holds, Agrees, holds-modify_keep, holds-modify_entry_keep}
use opencode_beacon.State.Pending.Agrees.{
  Agrees-upsert, Agrees-release, Agrees-delete, holds-leave_previous_keep, holds-leave_owner_keep,
}
use opencode_beacon.State.Reduce.{put_session, put_status}

abbrev pub permissions_of : SessionRecord → List String
permissions_of r = r.permissions

abbrev pub questions_of : SessionRecord → List String
questions_of r = r.questions

pub record IsIndexed (m : Map SessionRecord) (permissions questions : Map String) : Type 0 where
  pub sessions_unique : HasUniqueKeys m
  pub permissions_unique : HasUniqueKeys permissions
  pub questions_unique : HasUniqueKeys questions
  pub permissions_agree : Agrees permissions_of m permissions
  pub questions_agree : Agrees questions_of m questions

abbrev pub IsWellFormed : ServerState → Type 0
IsWellFormed s = IsIndexed s.sessions s.permissions s.questions

pub default-IsWellFormed : IsIndexed [] [] []
unfolding holds lookup
default-IsWellFormed = record {
  sessions_unique = tt;
  permissions_unique = tt;
  questions_unique = tt;
  permissions_agree = λ id request. refl;
  questions_agree = λ id request. refl;
}

pub remove_all-HasUniqueKeys :
    (ks : List String) (m : Map String) → HasUniqueKeys m → HasUniqueKeys (remove_all ks m)
unfolding remove_all
remove_all-HasUniqueKeys [] m u = u
remove_all-HasUniqueKeys (k ∷ ks) m u =
    remove_all-HasUniqueKeys ks (remove k m) (remove-HasUniqueKeys k m u)

pub leave_previous-HasUniqueKeys :
    (drop : SessionRecord → SessionRecord) (previous : Option String) (id : String)
    (m : Map SessionRecord)
    → HasUniqueKeys m
    → HasUniqueKeys (leave_previous drop previous id m)
unfolding leave_previous
leave_previous-HasUniqueKeys drop none id m u = u
leave_previous-HasUniqueKeys drop (some p) id m u = elim (Bool-cases (p == id)) [
  | inl same ↦ rw same u
  | inr other ↦ rw other (modify-HasUniqueKeys p drop m u)
]

pub leave_owner-HasUniqueKeys :
    (drop : SessionRecord → SessionRecord) (owner : Option String) (m : Map SessionRecord)
    → HasUniqueKeys m
    → HasUniqueKeys (leave_owner drop owner m)
unfolding leave_owner
leave_owner-HasUniqueKeys drop none m u = u
leave_owner-HasUniqueKeys drop (some o) m u = modify-HasUniqueKeys o drop m u

module _ {m : Map SessionRecord} {permissions questions : Map String} where
  -- An update of one record that leaves its pending requests alone.
  pub modify_entry-IsIndexed :
      (id : String) (f : SessionRecord → SessionRecord)
      → ((r : SessionRecord) → (f r).permissions ≡ r.permissions)
      → ((r : SessionRecord) → (f r).questions ≡ r.questions)
      → IsIndexed m permissions questions
      → IsIndexed (modify_entry id default_record f m) permissions questions
  modify_entry-IsIndexed id f kp kq v = record {
    sessions_unique = modify_entry-HasUniqueKeys id default_record f m v.sessions_unique;
    permissions_unique = v.permissions_unique;
    questions_unique = v.questions_unique;
    permissions_agree = λ other request.
        holds-modify_entry_keep permissions_of m other request f kp refl id
        ∙ v.permissions_agree other request;
    questions_agree = λ other request.
        holds-modify_entry_keep questions_of m other request f kq refl id
        ∙ v.questions_agree other request;
  }

  pub modify-IsIndexed :
      (id : String) (f : SessionRecord → SessionRecord)
      → ((r : SessionRecord) → (f r).permissions ≡ r.permissions)
      → ((r : SessionRecord) → (f r).questions ≡ r.questions)
      → IsIndexed m permissions questions
      → IsIndexed (modify id f m) permissions questions
  modify-IsIndexed id f kp kq v = record {
    sessions_unique = modify-HasUniqueKeys id f m v.sessions_unique;
    permissions_unique = v.permissions_unique;
    questions_unique = v.questions_unique;
    permissions_agree = λ other request.
        holds-modify_keep permissions_of m other request f kp id
        ∙ v.permissions_agree other request;
    questions_agree = λ other request.
        holds-modify_keep questions_of m other request f kq id ∙ v.questions_agree other request;
  }
