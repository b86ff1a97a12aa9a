-- ===== src/State/Record.antt =====
-- The reducer's state: `SessionRecord` and `ServerState` of src/state.rs.
use opencode_beacon.Prelude.{
  ℕ, String, Bool, true, false, Option, none, List, [], ◌∷◌, eqb, not, if◌then◌else◌, filter,
  length, filter_option, ◌≡◌, ◌↔◌, arith,
}
use opencode_beacon.Prelude.Maps.{Map, lookup}
use opencode_beacon.Model.{
  ActivityState, waiting_for_input, waiting_for_permission, retrying, working, idle_activity,
  SessionStatus, idle, busy, retry, unknown, Session,
}

pub record SessionRecord : Type 0 where
  pub metadata_known : Bool
  pub title : String
  pub slug : String
  pub parent_id : Option String
  pub project_id : Option String
  pub directory : Option String
  pub workspace : Option String
  pub updated : Option ℕ
  pub status : SessionStatus
  pub permissions : List String
  pub questions : List String

abbrev pub default_record : SessionRecord
default_record = record {
  metadata_known = false;
  title = "";
  slug = "";
  parent_id = none;
  project_id = none;
  directory = none;
  workspace = none;
  updated = none;
  status = idle;
  permissions = [];
  questions = [];
}

status_activity : SessionStatus → ActivityState
status_activity (retry attempt message next) = retrying
status_activity busy = working
status_activity idle = idle_activity
status_activity unknown = idle_activity

abbrev pub is_empty : List String → Bool
is_empty [] = true
is_empty (x ∷ xs) = false

-- `SessionRecord::activity`
unfoldable pub activity : SessionRecord → ActivityState
unfolding status_activity
activity r =
    if not (is_empty r.questions)
    then waiting_for_input
    else if not (is_empty r.permissions)
    then waiting_for_permission
    else status_activity r.status

-- `SessionRecord::update_metadata`
unfoldable pub update_metadata : Session → SessionRecord → SessionRecord
update_metadata s r = record r {
  metadata_known = true;
  title = s.title;
  slug = s.slug;
  parent_id = s.parent_id;
  project_id = s.project_id;
  directory = s.directory;
  workspace = s.workspace;
  updated = s.updated;
}

pub record ServerState : Type 0 where
  pub sessions : Map SessionRecord
  pub permissions : Map String
  pub questions : Map String
  pub seen_permissions : List String
  pub seen_questions : List String
  pub ready_armed : List String

-- `ServerState::default`
abbrev pub default_state : ServerState
default_state = record {
  sessions = [];
  permissions = [];
  questions = [];
  seen_permissions = [];
  seen_questions = [];
  ready_armed = [];
}

-- The position of a variant, by which `==` on the enumeration is modelled.
abbrev pub activity_rank : ActivityState → ℕ
activity_rank waiting_for_input = 0
activity_rank waiting_for_permission = 1
activity_rank retrying = 2
activity_rank working = 3
activity_rank idle_activity = 4

unfoldable pub activity_eq : ActivityState → ActivityState → Bool
activity_eq a b = eqb (activity_rank a) (activity_rank b)

pub activity_eq_iff : (a b : ActivityState) → (activity_eq a b ≡ true) ↔ (a ≡ b)
unfolding activity_eq
activity_eq_iff a b = ground arith

-- `ServerState::active_session_count`
unfoldable pub active_session_count : ServerState → ℕ
unfolding activity activity_eq filter
active_session_count s =
    length (filter (λ e. not (activity_eq (activity e.1) idle_activity)) s.sessions)

-- A session whose metadata has been reported.
unfoldable pub known_session : Map SessionRecord → String → Option SessionRecord
unfolding lookup
known_session m id = filter_option (λ r. r.metadata_known) (lookup id m)
