-- ===== src/State/Attention/Once.antt =====
-- Every request is announced at most once: announcements account for the growth of the seen sets.
use opencode_beacon.Prelude.Sort.{count-sort_by}
use opencode_beacon.Prelude.{
  ℕ, String, Bool, true, false, ◌≡◌, refl, ◌==◌, ◌&&◌, eqb, is_some_and, if◌then◌else◌, List,
  Option, count, [], ◌+◌, ◌≤◌, arith, some, ◌∷◌, none, eq_iff, is_some, filter, not, count-append,
}
use opencode_beacon.Prelude.Maps.{
  Map, contains, set_insert, contains-set_insert, lookup, HasUniqueKeys,
}
use opencode_beacon.Model.{AttentionEvent, TransitionSource, live, snapshot}
use opencode_beacon.State.Record.{SessionRecord, ServerState}
use opencode_beacon.State.Attention.{
  PendingKind, pending_permission, pending_question, attention_kind, request_attention, seen,
  mark_seen, kind_rank, announce, new_live_request_attention, NewRequest,
  new_snapshot_request_attention, unseen, entry_order,
}

-- Whether an event announces the request of the kind and the identifier.
unfoldable pub announces : PendingKind → String → AttentionEvent → Bool
announces kind id a =
    eqb (kind_rank a.kind) (kind_rank (attention_kind kind))
    && is_some_and a.request_id (λ request. request == id)

abbrev pub to_nat : Bool → ℕ
to_nat true = 1
to_nat false = 0

abbrev pub was_seen : PendingKind → String → ServerState → ℕ
was_seen kind id s = to_nat (contains (seen kind s) id)

abbrev pub kind_eq : PendingKind → PendingKind → Bool
kind_eq pending_permission pending_permission = true
kind_eq pending_question pending_question = true
kind_eq pending_permission pending_question = false
kind_eq pending_question pending_permission = false

pub announces-request :
    (m : Map SessionRecord) (k kind : PendingKind) (subject request id : String)
    (source : TransitionSource) (initial : Bool)
    → announces k id (request_attention m kind subject request source initial)
      ≡ (kind_eq kind k && request == id)
unfolding announces request_attention
announces-request m pending_permission pending_permission subject request id source initial = refl
announces-request m pending_permission pending_question subject request id source initial = refl
announces-request m pending_question pending_permission subject request id source initial = refl
announces-request m pending_question pending_question subject request id source initial = refl

was_seen-mark_seen :
    (k kind : PendingKind) (request id : String) (s : ServerState)
    → contains (seen k (mark_seen kind request s)) id ≡ (
        if kind_eq kind k
        then contains (set_insert request (seen k s)) id
        else contains (seen k s) id)
was_seen-mark_seen pending_permission pending_permission request id s = refl
was_seen-mark_seen pending_permission pending_question request id s = refl
was_seen-mark_seen pending_question pending_permission request id s = refl
was_seen-mark_seen pending_question pending_question request id s = refl

abbrev pub announced_list : Option AttentionEvent → List AttentionEvent
announced_list none = []
announced_list (some a) = a ∷ []

-- The live announcement.
pub once_live :
    (k : PendingKind) (id : String) (s : ServerState) (r : NewRequest)
    → count (announces k id) (announced_list (new_live_request_attention s r).0) + was_seen k id s
      ≡ was_seen k id (new_live_request_attention s r).1
unfolding new_live_request_attention count
once_live k id s r = ground (
  arith,
  announces-request s.sessions k r.kind r.subject_session_id r.request_id id live false,
  was_seen-mark_seen k r.kind r.request_id id s,
  contains-set_insert r.request_id id (seen k s),
  eq_iff r.request_id id,
)

-- Of no identifier are there two, among the entries and the seen ones together.
abbrev Fresh : List (String × String) → List String → Type 0
Fresh entries known =
    (id : String) → count (λ e. e.0 == id) entries + to_nat (contains known id) ≤ 1

Fresh-tail :
    (id owner : String) (rest : List (String × String)) (known : List String)
    → Fresh ((id, owner) ∷ rest) known
    → Fresh rest (set_insert id known)
unfolding count
Fresh-tail id owner rest known fresh other = ground (
  arith,
  fresh other,
  fresh id,
  eq_iff id other,
  eq_iff id id,
  contains-set_insert id other known,
)

Fresh-head :
    (id owner : String) (rest : List (String × String)) (known : List String)
    → Fresh ((id, owner) ∷ rest) known
    → contains known id ≡ false
unfolding count
Fresh-head id owner rest known fresh = ground (arith, fresh id, eq_iff id id)

seen-mark_seen :
    (kind : PendingKind) (request : String) (s : ServerState)
    → seen kind (mark_seen kind request s) ≡ set_insert request (seen kind s)
seen-mark_seen pending_permission request s = refl
seen-mark_seen pending_question request s = refl

kind_eq→≡ : (kind k : PendingKind) → kind_eq kind k ≡ true → kind ≡ k
kind_eq→≡ kind k h = ground arith

-- Marking one request adds one to what was seen exactly if the request is announced for it.
once_mark :
    (k kind : PendingKind) (initial : Bool) (id r owner : String) (s : ServerState)
    → contains (seen kind s) r ≡ false
    → (if announces k id (request_attention s.sessions kind owner r snapshot initial) then 1 else 0)
        + was_seen k id s
      ≡ was_seen k id (mark_seen kind r s)
once_mark k kind initial id r owner s new = ground (
  arith,
  announces-request s.sessions k kind owner r id snapshot initial,
  was_seen-mark_seen k kind r id s,
  contains-set_insert r id (seen k s),
  eq_iff r id,
  kind_eq→≡ kind k,
)

once_announce :
    (k kind : PendingKind) (initial : Bool) (id : String) (entries : List (String × String))
    (s : ServerState)
    → Fresh entries (seen kind s)
    → count (announces k id) (announce kind initial entries s).0 + was_seen k id s
      ≡ was_seen k id (announce kind initial entries s).1
unfolding announce count
once_announce k kind initial id [] s fresh = omega arith
once_announce k kind initial id ((r, owner) ∷ rest) s fresh = omega (
  arith,
  once_mark k kind initial id r owner s (Fresh-head r owner rest (seen kind s) fresh),
  once_announce k kind initial id rest (mark_seen kind r s)
      (rw (seen-mark_seen kind r s) (Fresh-tail r owner rest (seen kind s) fresh)),
)

pub count-of_unique :
    (id : String) (m : Map String)
    → HasUniqueKeys m
    → count (λ e. e.0 == id) m ≡ to_nat (is_some (lookup id m))
unfolding count lookup
count-of_unique id [] u = refl
count-of_unique id ((j, owner) ∷ m) u = ground (arith, count-of_unique id m u.1, eq_iff j id)

pub count-filter_unseen :
    (id : String) (known : List String) (m : Map String)
    → count (λ e. e.0 == id) (filter (λ e. not (contains known e.0)) m)
      ≡ (if contains known id then 0 else count (λ e. e.0 == id) m)
unfolding count filter
count-filter_unseen id known [] = ground arith
count-filter_unseen id known ((j, owner) ∷ m) =
    ground (arith, count-filter_unseen id known m, eq_iff j id)

unseen-Fresh :
    (known : List String) (m : Map String) → HasUniqueKeys m → Fresh (unseen known m) known
unfolding unseen
unseen-Fresh known m u id = ground (
  arith,
  count-sort_by entry_order (λ e. e.0 == id) (filter (λ e. not (contains known e.0)) m),
  count-filter_unseen id known m,
  count-of_unique id m u,
)

announce_questions-seen :
    (initial : Bool) (entries : List (String × String)) (s : ServerState)
    → (announce pending_question initial entries s).1.seen_permissions ≡ s.seen_permissions
unfolding announce
announce_questions-seen initial [] s = refl
announce_questions-seen initial ((r, owner) ∷ rest) s =
    announce_questions-seen initial rest (mark_seen pending_question r s)

-- The announcements of a snapshot.
pub once_snapshot :
    (k : PendingKind) (initial : Bool) (id : String) (s : ServerState)
    → HasUniqueKeys s.permissions
    → HasUniqueKeys s.questions
    → count (announces k id) (new_snapshot_request_attention initial s).0 + was_seen k id s
      ≡ was_seen k id (new_snapshot_request_attention initial s).1
unfolding new_snapshot_request_attention
once_snapshot k initial id s up uq =
    let questions = announce pending_question initial (unseen s.seen_questions s.questions) s in
    let entries = unseen s.seen_permissions s.permissions in
    let permissions = announce pending_permission initial entries questions.1 in
    omega (
      arith,
      count-append (announces k id) questions.0 permissions.0,
      once_announce k pending_question initial id (unseen s.seen_questions s.questions) s
          (unseen-Fresh s.seen_questions s.questions uq),
      once_announce k pending_permission initial id entries questions.1 (
          rw (announce_questions-seen initial (unseen s.seen_questions s.questions) s)
            (unseen-Fresh s.seen_permissions s.permissions up)),
    )
