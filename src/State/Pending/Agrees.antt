-- ===== src/State/Pending/Agrees.antt =====
-- Each change of the pending requests keeps the index and the session records in agreement.
use opencode_beacon.Prelude.{
  ◌==◌, not, ◌&&◌, ◌||◌, is_some_and, String, Option, none, some, List, [], ◌∷◌, ◌≡◌, refl, eq_iff,
  arith, if◌then◌else◌, filter, Option-cases, inl, inr,
}
use opencode_beacon.Prelude.Maps.{
  Map, lookup, insert, remove, modify_entry, contains, set_insert, set_remove, lookup-remove,
  lookup-insert, HasUniqueKeys,
}
use opencode_beacon.State.Record.{SessionRecord, default_record}
use opencode_beacon.State.Pending.{leave_previous, leave_owner, requests_of, remove_all}
use opencode_beacon.State.Pending.Holds.{
  holds, owned_by, Agrees, holds-modify_keep, holds-remove, holds-modify_entry_add,
  holds-leave_previous, holds-leave_owner,
}

pub lookup-remove_all {ℓ} :
    {V : Type ℓ} (ks : List String) (j : String) (m : Map V)
    → lookup j (remove_all ks m) ≡ (if contains ks j then none else lookup j m)
unfolding remove_all contains
lookup-remove_all [] j m = refl
lookup-remove_all (k ∷ ks) j m =
    ground (arith, lookup-remove_all ks j (remove k m), lookup-remove k j m)

-- Among entries with one key each, the requests of a session are those that the index gives it.
pub contains-requests_of :
    (id : String) (m : Map String) (request : String)
    → HasUniqueKeys m
    → contains (requests_of id m) request ≡ owned_by m request id
unfolding contains requests_of lookup filter
contains-requests_of id [] request u = refl
contains-requests_of id ((k, v) ∷ m) request u =
    ground (arith, contains-requests_of id m request u.1, eq_iff k request)

module _ (pick : SessionRecord → List String) (m : Map SessionRecord) where
  -- A change of another kind of request leaves this kind alone.
  module _ (drop : SessionRecord → SessionRecord)
      (keeps : (x : SessionRecord) → pick (drop x) ≡ pick x) where
    pub holds-leave_previous_keep :
        (previous : Option String) (session_id id request : String)
        → holds pick (leave_previous drop previous session_id m) id request
          ≡ holds pick m id request
    unfolding leave_previous
    holds-leave_previous_keep none session_id id request = refl
    holds-leave_previous_keep (some p) session_id id request =
        ground (arith, holds-modify_keep pick m id request drop keeps p)

    pub holds-leave_owner_keep :
        (owner : Option String) (id request : String)
        → holds pick (leave_owner drop owner m) id request ≡ holds pick m id request
    unfolding leave_owner
    holds-leave_owner_keep none id request = refl
    holds-leave_owner_keep (some o) id request = holds-modify_keep pick m id request drop keeps o

  pub Agrees-delete :
      (index : Map String) (id : String)
      → HasUniqueKeys index
      → Agrees pick m index
      → Agrees pick (remove id m) (remove_all (requests_of id index) index)
  Agrees-delete index id unique agrees other request = elim (Option-cases (lookup request index)) [
    | inl e ↦ ground (arith, e, facts)
    | inr (o, e) ↦ ground (arith, e, facts, eq_iff id other, eq_iff o id, eq_iff o other)
  ]
    where
      facts :
          (holds pick (remove id m) other request
            ≡ (not (id == other) && holds pick m other request))
          × (holds pick m other request ≡ owned_by index request other)
          × (lookup request (remove_all (requests_of id index) index)
              ≡ (if contains (requests_of id index) request then none else lookup request index))
          × (contains (requests_of id index) request ≡ owned_by index request id)
      facts = (
        holds-remove pick m other request id,
        agrees other request,
        lookup-remove_all (requests_of id index) request index,
        contains-requests_of id index request unique,
      )

module _ (pick : SessionRecord → List String) (add drop : String → SessionRecord → SessionRecord)
    (empty : pick default_record ≡ [])
    (adds : (r : String) (x : SessionRecord) → pick (add r x) ≡ set_insert r (pick x))
    (drops : (r : String) (x : SessionRecord) → pick (drop r x) ≡ set_remove r (pick x))
    (m : Map SessionRecord) (index : Map String) (agrees : Agrees pick m index) (r : String) where
  pub Agrees-upsert :
      (session_id : String)
      → Agrees pick
          (modify_entry session_id default_record
            (add r)
            (leave_previous (drop r) (lookup r index) session_id m))
          (insert r session_id index)
  Agrees-upsert session_id id request = elim (Option-cases (lookup r index)) [
    | inl e ↦ ground (arith, e, facts, eq_iff r request)
    | inr (o, e) ↦
        ground (
          arith,
          e,
          facts,
          eq_iff r request,
          eq_iff session_id id,
          eq_iff o id,
          eq_iff o session_id,
        )
  ]
    where
      moved : Map SessionRecord
      moved = leave_previous (drop r) (lookup r index) session_id m

      facts :
          (holds pick (modify_entry session_id default_record (add r) moved) id request
            ≡ (session_id == id && r == request || holds pick moved id request))
          × (holds pick moved id request ≡ (
              holds pick m id request
              && not (
                  is_some_and (lookup r index) (λ p. p == id && not (p == session_id))
                  && r == request)))
          × (holds pick m id request ≡ owned_by index request id)
          × (lookup request (insert r session_id index)
              ≡ (if r == request then some session_id else lookup request index))
      facts = (
        holds-modify_entry_add pick add drop empty adds drops moved session_id r id request,
        holds-leave_previous pick add drop empty adds drops m (lookup r index) session_id r id
            request,
        agrees id request,
        lookup-insert r request session_id index,
      )

  pub Agrees-release : Agrees pick (leave_owner (drop r) (lookup r index) m) (remove r index)
  Agrees-release id request = ground (
    arith,
    holds-leave_owner pick add drop empty adds drops m (lookup r index) r id request,
    agrees id request,
    lookup-remove r request index,
    eq_iff r request,
  )
