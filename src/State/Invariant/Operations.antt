-- ===== src/State/Invariant/Operations.antt =====
-- Each operation on one session or one pending request keeps the state well-formed.
use opencode_beacon.Prelude.{String, Option, refl, ◌∙◌}
use opencode_beacon.Prelude.Maps.{
  Map, lookup, set_insert, remove-HasUniqueKeys, insert-HasUniqueKeys, modify_entry-HasUniqueKeys,
}
use opencode_beacon.Model.{Session, SessionStatus, PermissionRequest, QuestionRequest}
use opencode_beacon.State.Record.{SessionRecord, default_record, ServerState, update_metadata}
use opencode_beacon.State.Pending.{
  upsert_permission, upsert_question, remove_permission, remove_question, delete_session,
  requests_of, add_permission, drop_permission, add_question, drop_question, leave_previous,
}
use opencode_beacon.State.Pending.Holds.{holds-modify_entry_keep}
use opencode_beacon.State.Pending.Agrees.{
  Agrees-upsert, Agrees-release, Agrees-delete, holds-leave_previous_keep, holds-leave_owner_keep,
}
use opencode_beacon.State.Reduce.{put_session, put_status}
use opencode_beacon.State.Invariant.{
  permissions_of, questions_of, IsWellFormed, remove_all-HasUniqueKeys,
  leave_previous-HasUniqueKeys, leave_owner-HasUniqueKeys, modify_entry-IsIndexed,
}

module _ (s : ServerState) (v : IsWellFormed s) where
  pub put_session-IsWellFormed : (info : Session) → IsWellFormed (put_session s info)
  unfolding put_session update_metadata
  put_session-IsWellFormed info =
      modify_entry-IsIndexed info.id (update_metadata info) (λ r. refl) (λ r. refl) v

  pub put_status-IsWellFormed :
      (id : String) (status : SessionStatus) → IsWellFormed (put_status s id status)
  unfolding put_status
  put_status-IsWellFormed id status =
      modify_entry-IsIndexed id (λ r. record r { status = status }) (λ r. refl) (λ r. refl) v

  pub delete_session-IsWellFormed : (id : String) → IsWellFormed (delete_session s id)
  unfolding delete_session
  delete_session-IsWellFormed id = record {
    sessions_unique = remove-HasUniqueKeys id s.sessions v.sessions_unique;
    permissions_unique =
        remove_all-HasUniqueKeys (requests_of id s.permissions) s.permissions v.permissions_unique;
    questions_unique =
        remove_all-HasUniqueKeys (requests_of id s.questions) s.questions v.questions_unique;
    permissions_agree =
        Agrees-delete permissions_of s.sessions s.permissions id v.permissions_unique
          v.permissions_agree;
    questions_agree =
        Agrees-delete questions_of s.sessions s.questions id v.questions_unique v.questions_agree;
  }

  pub upsert_permission-IsWellFormed :
      (r : PermissionRequest) → IsWellFormed (upsert_permission s r)
  unfolding upsert_permission
  upsert_permission-IsWellFormed r = record {
    sessions_unique =
        modify_entry-HasUniqueKeys r.session_id default_record (add_permission r.id) moved (
          leave_previous-HasUniqueKeys (drop_permission r.id) previous r.session_id s.sessions
            v.sessions_unique);
    permissions_unique = insert-HasUniqueKeys r.id r.session_id s.permissions v.permissions_unique;
    questions_unique = v.questions_unique;
    permissions_agree =
        Agrees-upsert permissions_of add_permission drop_permission refl (λ x y. refl) (λ x y. refl)
          s.sessions s.permissions v.permissions_agree r.id r.session_id;
    questions_agree = λ id request.
        holds-modify_entry_keep questions_of moved id request (add_permission r.id) (λ x. refl) refl
          r.session_id
        ∙ holds-leave_previous_keep questions_of s.sessions (drop_permission r.id) (λ x. refl)
            previous r.session_id id request
        ∙ v.questions_agree id request;
  }
    where
      previous : Option String
      previous = lookup r.id s.permissions

      moved : Map SessionRecord
      moved = leave_previous (drop_permission r.id) previous r.session_id s.sessions

  pub upsert_question-IsWellFormed : (r : QuestionRequest) → IsWellFormed (upsert_question s r)
  unfolding upsert_question
  upsert_question-IsWellFormed r = record {
    sessions_unique =
        modify_entry-HasUniqueKeys r.session_id default_record (add_question r.id) moved (
          leave_previous-HasUniqueKeys (drop_question r.id) previous r.session_id s.sessions
            v.sessions_unique);
    permissions_unique = v.permissions_unique;
    questions_unique = insert-HasUniqueKeys r.id r.session_id s.questions v.questions_unique;
    permissions_agree = λ id request.
        holds-modify_entry_keep permissions_of moved id request (add_question r.id) (λ x. refl) refl
          r.session_id
        ∙ holds-leave_previous_keep permissions_of s.sessions (drop_question r.id) (λ x. refl)
            previous r.session_id id request
        ∙ v.permissions_agree id request;
    questions_agree =
        Agrees-upsert questions_of add_question drop_question refl (λ x y. refl) (λ x y. refl)
          s.sessions s.questions v.questions_agree r.id r.session_id;
  }
    where
      previous : Option String
      previous = lookup r.id s.questions

      moved : Map SessionRecord
      moved = leave_previous (drop_question r.id) previous r.session_id s.sessions

  pub remove_permission-IsWellFormed : (r : String) → IsWellFormed (remove_permission s r)
  unfolding remove_permission set_insert add_permission
  remove_permission-IsWellFormed r = record {
    sessions_unique =
        leave_owner-HasUniqueKeys (drop_permission r) (lookup r s.permissions) s.sessions
          v.sessions_unique;
    permissions_unique = remove-HasUniqueKeys r s.permissions v.permissions_unique;
    questions_unique = v.questions_unique;
    permissions_agree =
        Agrees-release permissions_of add_permission drop_permission refl (λ x y. refl)
          (λ x y. refl) s.sessions s.permissions v.permissions_agree r;
    questions_agree = λ id request.
        holds-leave_owner_keep questions_of s.sessions (drop_permission r) (λ x. refl)
          (lookup r s.permissions) id request
        ∙ v.questions_agree id request;
  }

  pub remove_question-IsWellFormed : (r : String) → IsWellFormed (remove_question s r)
  unfolding remove_question set_insert add_question
  remove_question-IsWellFormed r = record {
    sessions_unique =
        leave_owner-HasUniqueKeys (drop_question r) (lookup r s.questions) s.sessions
          v.sessions_unique;
    permissions_unique = v.permissions_unique;
    questions_unique = remove-HasUniqueKeys r s.questions v.questions_unique;
    permissions_agree = λ id request.
        holds-leave_owner_keep permissions_of s.sessions (drop_question r) (λ x. refl)
          (lookup r s.questions) id request
        ∙ v.permissions_agree id request;
    questions_agree =
        Agrees-release questions_of add_question drop_question refl (λ x y. refl) (λ x y. refl)
          s.sessions s.questions v.questions_agree r;
  }
