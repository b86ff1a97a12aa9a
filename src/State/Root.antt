-- ===== src/State/Root.antt =====
-- The ancestry walk of `resolve_root` (src/state.rs). Each round adds a session to `visited`, so
-- one round more than there are sessions is fuel enough.
pub mod Walk
pub mod Ancestry
use opencode_beacon.Prelude.{
  ℕ, zero, suc, String, Bool, true, false, Option, none, some, List, [], is_some, unwrap_or, length,
}
use opencode_beacon.Prelude.Maps.{Map, contains, set_insert}
use opencode_beacon.State.Record.{SessionRecord, known_session}

unfoldable pub resolve_loop :
    ℕ → Map SessionRecord → String → String → List String → Option (String × Bool)
unfolding known_session contains set_insert
resolve_loop zero m subject current visited = none
resolve_loop (suc fuel) m subject current visited = elim (contains visited current) [
  | true ↦ some (subject, false)
  | false ↦ elim (known_session m current) [
    | none ↦ some (subject, false)
    | some r ↦ elim r.parent_id [
      | none ↦ some (current, true)
      | some parent ↦ elim (is_some (known_session m parent)) [
        | false ↦ some (subject, false)
        | true ↦ resolve_loop fuel m subject parent (set_insert current visited)
      ]
    ]
  ]
]

unfoldable pub resolve_root : Map SessionRecord → String → String × Bool
unfolding resolve_loop
resolve_root m subject =
    unwrap_or (resolve_loop (suc (length m)) m subject subject []) (subject, false)
