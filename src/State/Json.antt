-- ===== src/State/Json.antt =====
-- The JSON values of the `serde_json` crate, which is not part of the repository: the model takes
-- them, with the lookups and the decoders that the reducer calls.
use opencode_beacon.Prelude.{String, Option, ◌>>=◌}
use opencode_beacon.Model.{Session, SessionStatus, PermissionRequest, QuestionRequest}

pub record Json : Type 1 where
  pub Value : Type 0
  -- `Value::get` by a text and `Value::as_str`
  pub get : Value → String → Option Value
  pub as_str : Value → Option String
  -- `serde_json::from_value` at the types that derive `Deserialize`; `none` is an error
  pub session : Value → Option Session
  pub permission_request : Value → Option PermissionRequest
  pub question_request : Value → Option QuestionRequest
  pub status_properties : Value → Option (String × SessionStatus)

module _ (j : Json) where
  open j use {Value, get, as_str}

  unfoldable pub string_field : Value → String → Option String
  string_field value key = do field ← get value key; as_str field
