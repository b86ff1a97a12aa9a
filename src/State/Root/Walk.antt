-- ===== src/State/Root/Walk.antt =====
-- One round of the ancestry walk of `resolve_root` (src/state.rs), and that enough rounds end it.
use opencode_beacon.Prelude.{
  ℕ, zero, suc, ◌≤◌, ◌<◌, ◌≡◌, refl, ap, String, Bool, true, false, Option, none, some, List, [],
  ◌∷◌, length, is_some, arith, eq_iff, if◌then◌else◌, Bool-cases, Option-cases, inl, inr,
}
use opencode_beacon.Prelude.Maps.{Map, lookup, contains, set_insert, contains-set_insert}
use opencode_beacon.State.Record.{SessionRecord, known_session}
use opencode_beacon.State.Root.{resolve_loop}

-- `none` for a session with no known metadata, `some none` for a root.
unfoldable pub parent_of : Map SessionRecord → String → Option (Option String)
unfolding known_session
parent_of m id = elim (known_session m id) [ none ↦ none | some r ↦ some r.parent_id ]

-- The entries that have not been visited.
pub fresh {ℓ} : {V : Type ℓ} → Map V → List String → ℕ
fresh [] visited = 0
fresh ((k, v) ∷ m) visited = if contains visited k then fresh m visited else suc (fresh m visited)

pub fresh-set_insert-le {ℓ} :
    {V : Type ℓ} (m : Map V) (k : String) (visited : List String)
    → fresh m (set_insert k visited) ≤ fresh m visited
unfolding fresh
fresh-set_insert-le [] k visited = omega arith
fresh-set_insert-le ((i, v) ∷ m) k visited =
    ground (arith, contains-set_insert k i visited, fresh-set_insert-le m k visited)

pub fresh-set_insert-lt {ℓ} :
    {V : Type ℓ} (m : Map V) (k : String) (visited : List String)
    → is_some (lookup k m) ≡ true
    → contains visited k ≡ false
    → fresh m (set_insert k visited) < fresh m visited
unfolding fresh lookup
fresh-set_insert-lt [] k visited h new = cc
fresh-set_insert-lt ((i, v) ∷ m) k visited h new = ground (
  arith,
  eq_iff i k,
  eq_iff k i,
  contains-set_insert k i visited,
  fresh-set_insert-le m k visited,
  fresh-set_insert-lt m k visited,
)

pub fresh-nil {ℓ} : {V : Type ℓ} (m : Map V) → fresh m [] ≡ length m
unfolding fresh contains
fresh-nil [] = refl
fresh-nil ((k, v) ∷ m) = ap suc (fresh-nil m)

pub is_some-lookup :
    (m : Map SessionRecord) (id : String) {x : Option String}
    → parent_of m id ≡ some x
    → is_some (lookup id m) ≡ true
unfolding parent_of known_session
is_some-lookup m id h = ground arith

-- What one round of the walk meets, in the order of its tests.
pub data Round (m : Map SessionRecord) (visited : List String) (id : String) : Type 0 where
  revisit : contains visited id ≡ true → Round m visited id
  missing : contains visited id ≡ false → parent_of m id ≡ none → Round m visited id
  at_root : contains visited id ≡ false → parent_of m id ≡ some none → Round m visited id
  orphan :
      (parent : String)
      → contains visited id ≡ false
      → parent_of m id ≡ some (some parent)
      → parent_of m parent ≡ none
      → Round m visited id
  climb :
      (parent : String) (above : Option String)
      → contains visited id ≡ false
      → parent_of m id ≡ some (some parent)
      → parent_of m parent ≡ some above
      → Round m visited id

pub round : (m : Map SessionRecord) (visited : List String) (id : String) → Round m visited id
round m visited id = elim (Bool-cases (contains visited id)) [
  | inl old ↦ revisit old
  | inr new ↦ elim (Option-cases (parent_of m id)) [
    | inl e ↦ missing new e
    | inr (none, e) ↦ at_root new e
    | inr (some parent, e) ↦ elim (Option-cases (parent_of m parent)) [
      | inl e' ↦ orphan parent new e e'
      | inr (above, e') ↦ climb parent above new e e'
    ]
  ]
]

module _ (m : Map SessionRecord) (subject : String) (fuel : ℕ) (id : String)
    (visited : List String) where
  abbrev pub walk : Option (String × Bool)
  walk = resolve_loop (suc fuel) m subject id visited

  pub walk_revisit : contains visited id ≡ true → walk ≡ some (subject, false)
  unfolding resolve_loop
  walk_revisit h = ground arith

  pub walk_missing :
      contains visited id ≡ false → parent_of m id ≡ none → walk ≡ some (subject, false)
  unfolding resolve_loop parent_of
  walk_missing h e = ground arith

  pub walk_root : contains visited id ≡ false → parent_of m id ≡ some none → walk ≡ some (id, true)
  unfolding resolve_loop parent_of
  walk_root h e = ground arith

  pub walk_orphan :
      (parent : String)
      → contains visited id ≡ false
      → parent_of m id ≡ some (some parent)
      → parent_of m parent ≡ none
      → walk ≡ some (subject, false)
  unfolding resolve_loop parent_of
  walk_orphan parent h e e' = ground arith

  pub walk_climb :
      (parent : String) (above : Option String)
      → contains visited id ≡ false
      → parent_of m id ≡ some (some parent)
      → parent_of m parent ≡ some above
      → walk ≡ resolve_loop fuel m subject parent (set_insert id visited)
  unfolding resolve_loop parent_of
  walk_climb parent above h e e' = ground arith

pub walk_exhausted :
    (m : Map SessionRecord) (subject id : String) (visited : List String)
    → resolve_loop zero m subject id visited ≡ none
unfolding resolve_loop
walk_exhausted m subject id visited = refl

module _ (m : Map SessionRecord) (subject : String) where
  -- With more fuel than there are sessions to visit, the walk ends by one of its returns.
  pub resolve_loop_total :
      (fuel : ℕ) (id : String) (visited : List String)
      → fresh m visited < fuel
      → is_some (resolve_loop fuel m subject id visited) ≡ true
  resolve_loop_total zero id visited h = absurd (omega arith)
  resolve_loop_total (suc fuel) id visited h = elim (round m visited id) [
    | revisit old ↦ rw (walk_revisit m subject fuel id visited old)
    | missing new e ↦ rw (walk_missing m subject fuel id visited new e)
    | at_root new e ↦ rw (walk_root m subject fuel id visited new e)
    | orphan p new e e' ↦ rw (walk_orphan m subject fuel id visited p new e e')
    | climb p above new e e' ↦ rw (walk_climb m subject fuel id visited p above new e e') (
        resolve_loop_total fuel p (set_insert id visited)
          (omega (arith, fresh-set_insert-lt m id visited (is_some-lookup m id e) new)))
  ]
