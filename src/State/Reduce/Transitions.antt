-- ===== src/State/Reduce/Transitions.antt =====
-- `transitions_from` reports exactly the sessions whose activity differs, in the order of their
-- identifiers (src/state.rs).
use mathlib.Core.Option
use opencode_beacon.Prelude.{
  String, true, false, none, some, List, [], ◌∷◌, ◌++◌, map, ◌≡◌, refl, ◌∙◌, sym, arith, count,
  filter, All, ◌==◌, eq_iff, ◌||◌, is_some, if◌then◌else◌, Bool-cases, inl, inr,
}
use opencode_beacon.Prelude.Order.{order_by, str_cmp, str_cmp-IsOrder, is_le, Cmp}
use opencode_beacon.Prelude.Sort.{sort_by, IsSorted, sort_by-IsSorted, count-sort_by}
use opencode_beacon.Prelude.Maps.{Map, lookup, keys, contains, set_extend, contains-set_extend}
use opencode_beacon.Model.{ActivityState, idle_activity, TransitionSource, StateTransition}
use opencode_beacon.State.Record.{ServerState, activity, activity_eq, activity_eq_iff}
use opencode_beacon.State.Reduce.{activities, activity_in, changes, transitions_from}

contains-keys {ℓ} :
    {V : Type ℓ} (m : Map V) (id : String) → contains (keys m) id ≡ is_some (lookup id m)
unfolding contains lookup
contains-keys [] id = refl
contains-keys ((k, v) ∷ m) id = ground (arith, contains-keys m id)

contains-append :
    (xs ys : List String) (id : String)
    → contains (xs ++ ys) id ≡ (contains xs id || contains ys id)
unfolding contains
contains-append [] ys id = refl
contains-append (x ∷ xs) ys id = ground (arith, contains-append xs ys id)

-- A set holds each of its members once.
count-set_extend :
    (ks : List String) (id : String)
    → count (λ x. x == id) (set_extend ks []) ≡ (if contains (set_extend ks []) id then 1 else 0)
unfolding count contains set_extend
count-set_extend [] id = refl
count-set_extend (k ∷ ks) id = ground (arith, count-set_extend ks id, eq_iff k id)

contains_of_count :
    (ids : List String) (id : String) → count (λ x. x == id) ids ≡ 0 → contains ids id ≡ false
unfolding count contains
contains_of_count [] id h = refl
contains_of_count (i ∷ ids) id h = ground (arith, contains_of_count ids id)

module _ (previous current : Map ActivityState) (source : TransitionSource) where
  -- What is reported of one session.
  abbrev pub reported : String → List StateTransition
  reported id =
      if activity_eq (activity_in previous id) (activity_in current id)
      then []
      else record {
        session_id = id;
        previous = activity_in previous id;
        current = activity_in current id;
        source = source;
      }
        ∷ []

  changes_absent :
      (ids : List String) (id : String)
      → contains ids id ≡ false
      → filter (λ t. t.session_id == id) (changes previous current source ids) ≡ []
  unfolding changes filter contains
  changes_absent [] id h = refl
  changes_absent (i ∷ ids) id h = ground (arith, changes_absent ids id)

  changes_present :
      (ids : List String) (id : String)
      → count (λ x. x == id) ids ≡ 1
      → filter (λ t. t.session_id == id) (changes previous current source ids) ≡ reported id
  unfolding changes filter count
  changes_present [] id h = absurd (omega arith)
  changes_present (i ∷ ids) id h = elim (Bool-cases (i == id)) [
    | inl same ↦ ground (arith, eq_iff i id, changes_absent ids id, contains_of_count ids id)
    | inr other ↦ ground (arith, changes_present ids id)
  ]

  abbrev by_session : Cmp StateTransition
  by_session = order_by (λ t. t.session_id) str_cmp

  All-changes :
      (P : StateTransition → Type 0) (ids : List String)
      → All (λ i. (t : StateTransition) → t.session_id ≡ i → P t) ids
      → All P (changes previous current source ids)
  unfolding changes
  All-changes P [] h = tt
  All-changes P (i ∷ ids) h =
      elim (Bool-cases (activity_eq (activity_in previous i) (activity_in current i))) [
        | inl same ↦ rw same (All-changes P ids h.1)
        | inr differ ↦ rw differ (h.0 _ refl, All-changes P ids h.1)
      ]

  later_by_session :
      (i : String) (ids : List String)
      → All (λ k. is_le (str_cmp i k) ≡ true) ids
      → (s : StateTransition) → s.session_id ≡ i
      → All (λ k. (t : StateTransition) → t.session_id ≡ k → is_le (by_session s t) ≡ true) ids
  unfolding order_by
  later_by_session i [] h s e = tt
  later_by_session i (k ∷ ids) h s e = ((λ t e'. rw (e, e') h.0), later_by_session i ids h.1 s e)

  changes-IsSorted :
      (ids : List String)
      → IsSorted str_cmp ids
      → IsSorted by_session (changes previous current source ids)
  unfolding changes
  changes-IsSorted [] h = tt
  changes-IsSorted (i ∷ ids) h =
      elim (Bool-cases (activity_eq (activity_in previous i) (activity_in current i))) [
        | inl same ↦ rw same (changes-IsSorted ids h.1)
        | inr differ ↦ rw differ (
          All-changes (λ t. is_le (by_session _ t) ≡ true) ids (later_by_session i ids h.0 _ refl),
          changes-IsSorted ids h.1,
        )
      ]

module _ (previous : Map ActivityState) (source : TransitionSource) (s : ServerState) where
  reported_unknown :
      (id : String)
      → lookup id previous ≡ none
      → lookup id (activities s) ≡ none
      → reported previous (activities s) source id ≡ []
  reported_unknown id h h' = ground (arith, activity_eq_iff idle_activity idle_activity)

  absent_lookup :
      (id : String)
      → contains (set_extend (keys previous ++ keys (activities s)) []) id ≡ false
      → (lookup id previous ≡ none) × (lookup id (activities s) ≡ none)
  absent_lookup id h = ground (
    arith,
    contains-set_extend (keys previous ++ keys (activities s)) [] id,
    contains-append (keys previous) (keys (activities s)) id,
    contains-keys previous id,
    contains-keys (activities s) id,
  )

  -- The transitions of a session are its old and new activity, once, if the two differ, and none
  -- otherwise; a session that is not there counts as idle.
  pub transitions_exact :
      (id : String)
      → filter (λ t. t.session_id == id) (transitions_from previous source s)
        ≡ reported previous (activities s) source id
  unfolding transitions_from
  transitions_exact id =
      let ids = set_extend (keys previous ++ keys (activities s)) [] in
      let sorted = sort_by str_cmp ids in
      let counted =
        count-sort_by str_cmp (λ x. x == id) ids
        ∙ count-set_extend (keys previous ++ keys (activities s)) id in
      elim (Bool-cases (contains ids id)) [
        | inl present ↦
            changes_present previous (activities s) source sorted id (ground (arith, counted))
        | inr absent ↦
            changes_absent previous (activities s) source sorted id
              (contains_of_count sorted id (ground (arith, counted)))
            ∙ sym (reported_unknown id (absent_lookup id absent).0 (absent_lookup id absent).1)
      ]

  -- They come in the order of the session identifiers.
  pub transitions_from-IsSorted :
      IsSorted (order_by (λ t. t.session_id) str_cmp) (transitions_from previous source s)
  unfolding transitions_from
  transitions_from-IsSorted =
      let ids = set_extend (keys previous ++ keys (activities s)) [] in
      changes-IsSorted previous (activities s) source (sort_by str_cmp ids)
        (sort_by-IsSorted str_cmp str_cmp-IsOrder ids)

-- The activity of a session, idle where there is none.
unfoldable pub activity_of : ServerState → String → ActivityState
unfolding activity lookup
activity_of s id = elim (lookup id s.sessions) [ none ↦ idle_activity | some r ↦ activity r ]

lookup-map {ℓ} :
    {V W : Type ℓ} (f : V → W) (id : String) (m : Map V)
    → lookup id (map (λ e. (e.0, f e.1)) m) ≡ Option.map f (lookup id m)
unfolding lookup
lookup-map f id [] = refl
lookup-map f id ((k, v) ∷ m) = ground (arith, lookup-map f id m)

pub activity_in-activities :
    (s : ServerState) (id : String) → activity_in (activities s) id ≡ activity_of s id
unfolding activities activity_of
activity_in-activities s id = ground (arith, lookup-map activity id s.sessions)
