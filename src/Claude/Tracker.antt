-- ===== src/Claude/Tracker.antt =====
-- `ClaudeTracker` (src/claude.rs): `apply_success` on a complete scan, `apply_failure` on a
-- failed one. The events come in the order of the source's five passes.
pub mod Passes
pub mod Scan
pub mod Invariant
pub mod Ready
use opencode_beacon.Prelude.Chars.{path_eq, bool_eq}
use opencode_beacon.Prelude.{
  ℕ, ◌+◌, String, Bool, true, false, Option, none, some, List, [], ◌∷◌, ◌++◌, map, filter, any, not,
  ◌&&◌, ◌||◌, ◌==◌, eqb, leb, if◌then◌else◌,
}
use opencode_beacon.Prelude.Table.{Table, lookup, insert, remove, map_values}
use opencode_beacon.Model.{ready}
use opencode_beacon.Events.{
  ClaudeSessionKey, claude_key, claude_key_eq, ClaudeSession, ClaudeStatus, claude_busy,
  claude_waiting, claude_idle, claude_unknown, claude_status_eq, ClaudeTransition, ClaudeProjection,
  ClaudeAttentionEvent, BeaconEvent, claude_session_found, claude_session_removed,
  claude_transition, claude_attention, claude_state_projection,
}

pub record ObservedSession : Type 0 where
  pub session : ClaudeSession
  pub status : ClaudeStatus

pub record RetainedSession : Type 0 where
  pub observed : ObservedSession
  pub misses : ℕ
  pub armed : Bool
  pub stale : Bool

abbrev pub ClaudeTracker : Type 0
ClaudeTracker = Table ClaudeSessionKey RetainedSession

abbrev pub key_of : ObservedSession → ClaudeSessionKey
key_of o = o.session.key

-- `u8::saturating_add(1)`
abbrev pub add_miss : ℕ → ℕ
add_miss n = if leb 255 n then 255 else n + 1

-- `matches!(status, Busy | Waiting)`
abbrev pub arms : ClaudeStatus → Bool
arms claude_busy = true
arms claude_waiting = true
arms claude_idle = false
arms claude_unknown = false

abbrev pub name_eq : Option String → Option String → Bool
name_eq none none = true
name_eq (some a) (some b) = a == b
name_eq none (some b) = false
name_eq (some a) none = false

-- `==` on `ObservedSession`
unfoldable pub observed_eq : ObservedSession → ObservedSession → Bool
unfolding claude_key_eq claude_status_eq path_eq
observed_eq a b =
    claude_key_eq a.session.key b.session.key
    && a.session.session_id == b.session.session_id
    && path_eq a.session.cwd b.session.cwd
    && name_eq a.session.name b.session.name
    && bool_eq a.session.has_tty b.session.has_tty
    && claude_status_eq a.status b.status

abbrev pub projected_as : ObservedSession → Bool → BeaconEvent
projected_as o stale =
    claude_state_projection (record { session = o.session; status = o.status; stale = stale })

-- Another process now has the pid of the retained session.
unfoldable pub is_replaced : List ObservedSession → RetainedSession → Bool
unfolding any claude_key_eq
is_replaced current r =
    any
      (λ o.
        eqb (key_of o).pid (key_of r.observed).pid
        && not (claude_key_eq (key_of o) (key_of r.observed)))
      current

-- The keys of the entries that pass a test, and their removal, each announced.
unfoldable pub keys_where : (RetainedSession → Bool) → ClaudeTracker → List ClaudeSessionKey
unfolding filter
keys_where p t = map (λ e. e.0) (filter (λ e. p e.1) t)

unfoldable pub remove_keys :
    List ClaudeSessionKey → ClaudeTracker → List BeaconEvent × ClaudeTracker
unfolding lookup remove
remove_keys [] t = ([], t)
remove_keys (k ∷ ks) t =
    let (events, t') = remove_keys ks (remove claude_key k t) in
    (
      elim (lookup claude_key k t) [
        | none ↦ events
        | some r ↦ claude_session_removed r.observed.session ∷ events
      ],
      t',
    )

-- `keys.contains(key)`
unfoldable pub is_observed : List ObservedSession → ClaudeSessionKey → Bool
unfolding any claude_key_eq
is_observed current k = any (λ o. claude_key_eq (key_of o) k) current

unfoldable pub miss : List ObservedSession → RetainedSession → RetainedSession
unfolding is_observed
miss current r =
    if is_observed current (key_of r.observed)
    then r
    else record r { misses = add_miss r.misses; stale = true }

unfoldable pub miss_events : List ObservedSession → ClaudeTracker → List BeaconEvent
unfolding is_observed
miss_events current [] = []
miss_events current ((k, r) ∷ t) =
    let rest = miss_events current t in
    if not (is_observed current (key_of r.observed)) && not r.stale
    then projected_as r.observed true ∷ rest
    else rest

-- A session that was not retained, or that another session of the process replaces.
abbrev pub admit : ObservedSession → RetainedSession
admit current = record {
  observed = current;
  misses = 0;
  armed = arms current.status;
  stale = false;
}

-- The retained session once it is observed again, and what is announced of it.
unfoldable pub renew : RetainedSession → ObservedSession → RetainedSession
unfolding claude_status_eq
renew r current =
    let armed =
      if claude_status_eq r.observed.status current.status
      then r.armed
      else (r.armed || arms current.status) && not (claude_status_eq current.status claude_idle) in
    record { observed = current; misses = 0; armed = armed; stale = false }

unfoldable pub renew_events : RetainedSession → ObservedSession → List BeaconEvent
unfolding observed_eq claude_status_eq
renew_events r current =
    let changed = not (observed_eq r.observed current) || r.stale in
    let armed = r.armed || arms current.status in
    let moved : ClaudeTransition = record {
      session = current.session;
      previous = r.observed.status;
      current = current.status;
    } in
    let ready_event =
      claude_attention (record { kind = ready; session = current.session; initial = false }) in
    (if claude_status_eq r.observed.status current.status
      then []
      else if armed && claude_status_eq current.status claude_idle
      then claude_transition moved ∷ ready_event ∷ []
      else claude_transition moved ∷ [])
    ++ (if changed then projected_as current false ∷ [] else [])

-- The last pass, for one observed session.
unfoldable pub observe : ClaudeTracker → ObservedSession → List BeaconEvent × ClaudeTracker
unfolding lookup insert renew renew_events
observe t current = elim (lookup claude_key (key_of current) t) [
  | none ↦ (
    claude_session_found current.session ∷ projected_as current false ∷ [],
    insert claude_key (key_of current) (admit current) t,
  )
  | some r ↦
      if not (r.observed.session.session_id == current.session.session_id)
      then (
        claude_session_removed r.observed.session
            ∷ claude_session_found current.session
            ∷ projected_as current false
            ∷ [],
        insert claude_key (key_of current) (admit current) t,
      )
      else (renew_events r current, insert claude_key (key_of current) (renew r current) t)
]

unfoldable pub observe_all : ClaudeTracker → List ObservedSession → List BeaconEvent × ClaudeTracker
unfolding observe
observe_all t [] = ([], t)
observe_all t (o ∷ os) =
    let (events, t') = observe t o in let (more, t'') = observe_all t' os in (events ++ more, t'')

-- The tracker before the last pass.
unfoldable pub expire : ClaudeTracker → List ObservedSession → List BeaconEvent × ClaudeTracker
unfolding is_replaced keys_where remove_keys miss miss_events map_values
expire t current =
    let (replaced, t1) = remove_keys (keys_where (is_replaced current) t) t in
    let stale = miss_events current t1 in
    let t2 = map_values claude_key (miss current) t1 in
    let (removed, t3) = remove_keys (keys_where (λ r. leb 2 r.misses) t2) t2 in
    (replaced ++ stale ++ removed, t3)

unfoldable pub apply_success :
    ClaudeTracker → List ObservedSession → List BeaconEvent × ClaudeTracker
unfolding expire observe_all
apply_success t current =
    let (events, t') = expire t current in
    let (more, t'') = observe_all t' current in (events ++ more, t'')

abbrev pub mark_stale : RetainedSession → RetainedSession
mark_stale r = record r { stale = true }

unfoldable pub apply_failure : ClaudeTracker → List BeaconEvent × ClaudeTracker
unfolding filter map_values
apply_failure t = (
  map (λ e. projected_as e.1.observed true) (filter (λ e. not e.1.stale) t),
  map_values claude_key mark_stale t,
)
