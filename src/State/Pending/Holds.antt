-- ===== src/State/Pending/Holds.antt =====
-- The sets of pending requests that the session records hold, against the index from a request to
-- its session, for either kind of request: `pick` is the kind's set, `add` and `drop` its updates.
use opencode_beacon.Prelude.{
  String, Bool, false, Option, none, some, List, [], ◌≡◌, refl, not, ◌&&◌, ◌||◌, ◌==◌, arith,
  is_some_and, Option-cases, inl, inr, unwrap_or,
}
use opencode_beacon.Prelude.Maps.{
  Map, lookup, remove, modify, modify_entry, contains, set_insert, set_remove, lookup-remove,
  lookup-modify, lookup-modify_entry, contains-set_insert, contains-set_remove,
}
use opencode_beacon.State.Record.{SessionRecord, default_record}
use opencode_beacon.State.Pending.{leave_previous, leave_owner}

-- Whether the record of a session holds a request.
unfoldable pub holds : (SessionRecord → List String) → Map SessionRecord → String → String → Bool
unfolding lookup contains
holds pick m id request = is_some_and (lookup id m) (λ r. contains (pick r) request)

-- Whether the index gives a request to a session.
abbrev pub owned_by : Map String → String → String → Bool
owned_by index request id = is_some_and (lookup request index) (λ owner. owner == id)

-- The two say the same of every session and request.
abbrev pub Agrees : (SessionRecord → List String) → Map SessionRecord → Map String → Type 0
Agrees pick m index = (id request : String) → holds pick m id request ≡ owned_by index request id

contains-nil : (r : String) → contains [] r ≡ false
unfolding contains
contains-nil r = refl

module _ (pick : SessionRecord → List String) (m : Map SessionRecord) (id request : String) where
  pub holds-remove :
      (k : String) → holds pick (remove k m) id request ≡ (not (k == id) && holds pick m id request)
  unfolding holds
  holds-remove k = ground (arith, lookup-remove k id m)

  module _ (f : SessionRecord → SessionRecord)
      (keeps : (x : SessionRecord) → pick (f x) ≡ pick x) where
    pub holds-modify_keep :
        (k : String) → holds pick (modify k f m) id request ≡ holds pick m id request
    unfolding holds
    holds-modify_keep k = elim (Option-cases (lookup id m)) [
      | inl e ↦ ground (arith, lookup-modify k id f m)
      | inr (v, e) ↦ ground (arith, lookup-modify k id f m, keeps v)
    ]

    pub holds-modify_entry_keep :
        pick default_record ≡ []
        → (k : String)
        → holds pick (modify_entry k default_record f m) id request ≡ holds pick m id request
    unfolding holds
    holds-modify_entry_keep empty k = ground (
      arith,
      lookup-modify_entry k id default_record f m,
      keeps (unwrap_or (lookup id m) default_record),
      contains-nil request,
    )

module _ (pick : SessionRecord → List String) (add drop : String → SessionRecord → SessionRecord)
    (empty : pick default_record ≡ [])
    (adds : (r : String) (x : SessionRecord) → pick (add r x) ≡ set_insert r (pick x))
    (drops : (r : String) (x : SessionRecord) → pick (drop r x) ≡ set_remove r (pick x))
    (m : Map SessionRecord) where
  pub holds-modify_entry_add :
      (k r id request : String)
      → holds pick (modify_entry k default_record (add r) m) id request
        ≡ (k == id && r == request || holds pick m id request)
  unfolding holds
  holds-modify_entry_add k r id request = ground (
    arith,
    lookup-modify_entry k id default_record (add r) m,
    adds r (unwrap_or (lookup id m) default_record),
    contains-set_insert r request (pick (unwrap_or (lookup id m) default_record)),
    contains-nil request,
  )

  holds-modify-drop :
      (k r id request : String)
      → holds pick (modify k (drop r) m) id request
        ≡ (holds pick m id request && not (k == id && r == request))
  unfolding holds
  holds-modify-drop k r id request = elim (Option-cases (lookup id m)) [
    | inl e ↦ ground (arith, lookup-modify k id (drop r) m)
    | inr (v, e) ↦
        ground
          (arith, lookup-modify k id (drop r) m, drops r v, contains-set_remove r request (pick v))
  ]

  pub holds-leave_previous :
      (previous : Option String) (session_id r id request : String)
      → holds pick (leave_previous (drop r) previous session_id m) id request ≡ (
          holds pick m id request
          && not (is_some_and previous (λ p. p == id && not (p == session_id)) && r == request))
  unfolding leave_previous
  holds-leave_previous none session_id r id request = ground arith
  holds-leave_previous (some p) session_id r id request =
      ground (arith, holds-modify-drop p r id request)

  pub holds-leave_owner :
      (owner : Option String) (r id request : String)
      → holds pick (leave_owner (drop r) owner m) id request
        ≡ (holds pick m id request && not (is_some_and owner (λ o. o == id) && r == request))
  unfolding leave_owner
  holds-leave_owner none r id request = ground arith
  holds-leave_owner (some o) r id request = ground (arith, holds-modify-drop o r id request)
