-- ===== src/State/View/Projection.antt =====
-- `projection` lists every session once, in the order of the identifiers (src/state.rs).
use opencode_beacon.Prelude.{
  ◌≤◌, String, Bool, none, some, List, [], ◌∷◌, map, ◌≡◌, refl, ◌∙◌, arith, count, filter, ◌==◌,
  eq_iff, is_some, if◌then◌else◌, Bool-cases, inl, inr,
}
use opencode_beacon.Prelude.Order.{Cmp, is_le, order_by-IsOrder, str_cmp-IsOrder}
use opencode_beacon.Prelude.Sort.{place, sort_by, IsSorted, sort_by-IsSorted, count-sort_by}
use opencode_beacon.Prelude.Maps.{Map, lookup, HasUniqueKeys}
use opencode_beacon.Model.{ProjectedSession}
use opencode_beacon.State.Record.{SessionRecord, ServerState}
use opencode_beacon.State.View.{project, projected_order, projection}
use opencode_beacon.State.Invariant.{IsWellFormed}

module _ {ℓ} {A : Type ℓ} (cmp : Cmp A) (p : A → Bool) where
  filter_of_count : (xs : List A) → count p xs ≡ 0 → filter p xs ≡ []
  unfolding count filter
  filter_of_count [] h = refl
  filter_of_count (x ∷ xs) h = ground (arith, filter_of_count xs)

  filter-place :
      (x : A) (ys : List A) → count p (x ∷ ys) ≤ 1 → filter p (place cmp x ys) ≡ filter p (x ∷ ys)
  unfolding count filter place
  filter-place x [] h = refl
  filter-place x (y ∷ ys) h = elim (Bool-cases (is_le (cmp x y))) [
    | inl le ↦ rw le
    | inr gt ↦ rw gt (ground (arith, filter-place x ys, filter_of_count ys))
  ]

  filter-cons :
      (x : A) (ys zs : List A) → filter p ys ≡ filter p zs → filter p (x ∷ ys) ≡ filter p (x ∷ zs)
  unfolding filter
  filter-cons x ys zs e = rw e

  pub filter-sort_by : (xs : List A) → count p xs ≤ 1 → filter p (sort_by cmp xs) ≡ filter p xs
  unfolding count sort_by
  filter-sort_by [] h = refl
  filter-sort_by (x ∷ xs) h =
      filter-place x (sort_by cmp xs) (omega (arith, count-sort_by cmp p xs))
      ∙ filter-cons x (sort_by cmp xs) xs (filter-sort_by xs (omega arith))

-- What a projection should say of a session: nothing, or its record.
abbrev pub projected : Map SessionRecord → String → List ProjectedSession
projected m id = elim (lookup id m) [ none ↦ [] | some r ↦ project (id, r) ∷ [] ]

count-projected :
    (m : Map SessionRecord) (id : String)
    → HasUniqueKeys m
    → count (λ p. p.id == id) (map project m) ≡ (if is_some (lookup id m) then 1 else 0)
unfolding count project lookup
count-projected [] id u = refl
count-projected ((k, r) ∷ m) id u = ground (arith, count-projected m id u.1, eq_iff k id)

id-project : (k : String) (r : SessionRecord) → (project (k, r)).id ≡ k
unfolding project
id-project k r = refl

filter-projected :
    (m : Map SessionRecord) (id : String)
    → HasUniqueKeys m
    → filter (λ p. p.id == id) (map project m) ≡ projected m id
unfolding filter lookup
filter-projected [] id u = refl
filter-projected ((k, r) ∷ m) id u =
    ground (arith, id-project k r, eq_iff k id, filter-projected m id u.1, u.0)

-- In a well-formed state the projection has for each session exactly one entry, made from its
-- record, and none for an identifier that has no session; the entries are in the order of their
-- identifiers.
pub projection_exact :
    (s : ServerState)
    → IsWellFormed s
    → ((id : String) → filter (λ p. p.id == id) (projection s) ≡ projected s.sessions id)
      × IsSorted projected_order (projection s)
unfolding projection
projection_exact s v = (
  λ id.
      filter-sort_by projected_order (λ p. p.id == id) (map project s.sessions)
        (ground (arith, count-projected s.sessions id v.sessions_unique))
      ∙ filter-projected s.sessions id v.sessions_unique,
  unfold projected_order in
      sort_by-IsSorted projected_order (order_by-IsOrder (λ p. p.id) str_cmp-IsOrder)
        (map project s.sessions),
)
