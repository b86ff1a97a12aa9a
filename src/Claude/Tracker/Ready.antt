-- ===== src/Claude/Tracker/Ready.antt =====
-- When a scan announces that a Claude session is ready (src/claude.rs).
use opencode_beacon.Prelude.{
  Bool, true, false, Option, none, some, List, [], ◌∷◌, ◌++◌, any, not, ◌&&◌, ◌||◌, ◌==◌, leb,
  if◌then◌else◌, ◌≡◌, refl, ◌∙◌, ap, arith, Option-cases, Bool-cases, inl, inr, any-append,
}
use opencode_beacon.Prelude.Table.{lookup, remove, map_values}
use opencode_beacon.Events.{
  ClaudeSessionKey, claude_key, claude_key_eq, claude_key_eq_iff, BeaconEvent, claude_attention,
  claude_status_eq, claude_idle, ClaudeStatus, claude_status_eq_iff,
}
use opencode_beacon.Claude.Tracker.{
  ObservedSession, RetainedSession, ClaudeTracker, key_of, is_replaced, keys_where, remove_keys,
  arms, observed_eq, miss, miss_events, admit, renew_events, observe, observe_all, expire,
  apply_success, ready, projected_as, claude_transition, claude_session_found,
  claude_session_removed,
}
use opencode_beacon.Claude.Tracker.Passes.{IsTracker, HasDistinctPids, find_session, lookup-expire}
use opencode_beacon.Claude.Tracker.Scan.{
  lookup-observe, find_other, find_session-cons, miss-cases, not_replaced, is_observed_iff,
  find_session-nil,
}

-- Whether an event announces that the session of the key is ready.
unfoldable pub claude_ready : ClaudeSessionKey → BeaconEvent → Bool
claude_ready k (claude_attention a) = claude_key_eq a.session.key k
claude_ready k _ = false

-- The session was armed, is still the same, was not idle, and is idle now.
unfoldable pub becomes_ready : Option RetainedSession → ObservedSession → Bool
becomes_ready none o = false
becomes_ready (some r) o =
    r.observed.session.session_id == o.session.session_id
    && r.armed
    && not (claude_status_eq r.observed.status claude_idle)
    && claude_status_eq o.status claude_idle

remove_keys_silent :
    (k : ClaudeSessionKey) (ks : List ClaudeSessionKey) (t : ClaudeTracker)
    → any (claude_ready k) (remove_keys ks t).0 ≡ false
unfolding any remove_keys claude_ready
remove_keys_silent k [] t = refl
remove_keys_silent k (j ∷ ks) t = ground (arith, remove_keys_silent k ks (remove claude_key j t))

miss_silent :
    (k : ClaudeSessionKey) (current : List ObservedSession) (t : ClaudeTracker)
    → any (claude_ready k) (miss_events current t) ≡ false
unfolding any miss_events claude_ready
miss_silent k current [] = refl
miss_silent k current ((j, r) ∷ t) = ground (arith, miss_silent k current t)

-- The three groups of events that the passes before the last announce.
expire-events :
    (t : ClaudeTracker) (current : List ObservedSession)
    → (expire t current).0 ≡ (
        let replaced = remove_keys (keys_where (is_replaced current) t) t in
        let t2 = map_values claude_key (miss current) replaced.1 in
        replaced.0
        ++ miss_events current replaced.1
        ++ (remove_keys (keys_where (λ r. leb 2 r.misses) t2) t2).0)
unfolding expire
expire-events t current = refl

silent_append :
    (k : ClaudeSessionKey) (a b c : List BeaconEvent)
    → any (claude_ready k) a ≡ false
    → any (claude_ready k) b ≡ false
    → any (claude_ready k) c ≡ false
    → any (claude_ready k) (a ++ b ++ c) ≡ false
silent_append k a b c x y z =
    ground (arith, any-append (claude_ready k) (a ++ b) c, any-append (claude_ready k) a b)

expire_silent :
    (k : ClaudeSessionKey) (t : ClaudeTracker) (current : List ObservedSession)
    → any (claude_ready k) (expire t current).0 ≡ false
expire_silent k t current =
    ap (any (claude_ready k)) (expire-events t current)
    ∙ silent_append k _ _ _ (remove_keys_silent k _ t) (miss_silent k current _)
        (remove_keys_silent k _ _)

abbrev moved_to : RetainedSession → ObservedSession → BeaconEvent
moved_to r o =
    claude_transition
      (record { session = o.session; previous = r.observed.status; current = o.status })

abbrev ready_now : ObservedSession → BeaconEvent
ready_now o = claude_attention (record { kind = ready; session = o.session; initial = false })

renew_events-parts :
    (r : RetainedSession) (o : ObservedSession)
    → renew_events r o ≡ (
        (if claude_status_eq r.observed.status o.status
          then []
          else if (r.armed || arms o.status) && claude_status_eq o.status claude_idle
          then moved_to r o ∷ ready_now o ∷ []
          else moved_to r o ∷ [])
        ++ (if not (observed_eq r.observed o) || r.stale then projected_as o false ∷ [] else []))
unfolding renew_events
renew_events-parts r o = refl

moved_ready :
    (k : ClaudeSessionKey) (r : RetainedSession) (o : ObservedSession)
    → any (claude_ready k) (moved_to r o ∷ ready_now o ∷ []) ≡ claude_key_eq (key_of o) k
unfolding any claude_ready
moved_ready k r o = ground arith

moved_silent :
    (k : ClaudeSessionKey) (r : RetainedSession) (o : ObservedSession)
    → any (claude_ready k) (moved_to r o ∷ []) ≡ false
unfolding any claude_ready
moved_silent k r o = refl

projected_silent :
    (k : ClaudeSessionKey) (o : ObservedSession)
    → any (claude_ready k) (projected_as o false ∷ []) ≡ false
unfolding any claude_ready
projected_silent k o = refl

nothing_silent : (k : ClaudeSessionKey) → any (claude_ready k) [] ≡ false
unfolding any
nothing_silent k = refl

idle_status : (s : ClaudeStatus) → claude_status_eq s claude_idle ≡ true → arms s ≡ false
idle_status s h = ap arms ((claude_status_eq_iff s claude_idle).0 h)

renew_ready :
    (k : ClaudeSessionKey) (r : RetainedSession) (o : ObservedSession)
    → any (claude_ready k) (renew_events r o) ≡ (
        claude_key_eq (key_of o) k
        && r.armed
        && not (claude_status_eq r.observed.status claude_idle)
        && claude_status_eq o.status claude_idle)
renew_ready k r o =
    let moves =
      if claude_status_eq r.observed.status o.status
      then []
      else if (r.armed || arms o.status) && claude_status_eq o.status claude_idle
      then moved_to r o ∷ ready_now o ∷ []
      else moved_to r o ∷ [] in
    let view =
      if not (observed_eq r.observed o) || r.stale then projected_as o false ∷ [] else [] in
    let parts = ap (any (claude_ready k)) (renew_events-parts r o) in
    let split = any-append (claude_ready k) moves view in
    elim (Bool-cases (claude_status_eq o.status claude_idle)) [
      | inl idle ↦ ground (
        arith,
        parts,
        split,
        idle_status o.status idle,
        ap (claude_status_eq r.observed.status)
            ((claude_status_eq_iff o.status claude_idle).0 idle),
        moved_ready k r o,
        moved_silent k r o,
        projected_silent k o,
        nothing_silent k,
      )
      | inr other ↦ ground (arith, moved_silent k r o, projected_silent k o, nothing_silent k)
    ]

observe-events :
    (t : ClaudeTracker) (o : ObservedSession)
    → (observe t o).0 ≡ elim (lookup claude_key (key_of o) t) [
      | none ↦ claude_session_found o.session ∷ projected_as o false ∷ []
      | some r ↦
          if not (r.observed.session.session_id == o.session.session_id)
          then claude_session_removed r.observed.session
            ∷ claude_session_found o.session
            ∷ projected_as o false
            ∷ []
          else renew_events r o
    ]
unfolding observe
observe-events t o = elim (Option-cases (lookup claude_key (key_of o) t)) [
  | inl e ↦ ground (arith, e)
  | inr (r, e) ↦ ground (arith, e)
]

found_silent :
    (k : ClaudeSessionKey) (r : RetainedSession) (o : ObservedSession)
    → (any (claude_ready k) (claude_session_found o.session ∷ projected_as o false ∷ []) ≡ false)
      × (any (claude_ready k) (
            claude_session_removed r.observed.session
            ∷ claude_session_found o.session
            ∷ projected_as o false
            ∷ [])
          ≡ false)
unfolding any claude_ready
found_silent k r o = (refl, refl)

becomes_ready-some :
    (r : RetainedSession) (o : ObservedSession)
    → becomes_ready (some r) o ≡ (
        r.observed.session.session_id == o.session.session_id
        && r.armed
        && not (claude_status_eq r.observed.status claude_idle)
        && claude_status_eq o.status claude_idle)
unfolding becomes_ready
becomes_ready-some r o = refl

becomes_ready-none : (o : ObservedSession) → becomes_ready none o ≡ false
unfolding becomes_ready
becomes_ready-none o = refl

observe_ready :
    (k : ClaudeSessionKey) (t : ClaudeTracker) (o : ObservedSession)
    → any (claude_ready k) (observe t o).0
      ≡ (claude_key_eq (key_of o) k && becomes_ready (lookup claude_key (key_of o) t) o)
observe_ready k t o = elim (Option-cases (lookup claude_key (key_of o) t)) [
  | inl e ↦
      ground (arith, e, observe-events t o, becomes_ready-none o, (found_silent k (admit o) o).0)
  | inr (r, e) ↦ ground (
    arith,
    e,
    observe-events t o,
    becomes_ready-some r o,
    (found_silent k r o).1,
    renew_ready k r o,
  )
]

observe_all-events :
    (t : ClaudeTracker) (o : ObservedSession) (os : List ObservedSession)
    → (observe_all t (o ∷ os)).0 ≡ (observe t o).0 ++ (observe_all (observe t o).1 os).0
unfolding observe_all
observe_all-events t o os = refl

observe_all-silent : (t : ClaudeTracker) → (observe_all t []).0 ≡ []
unfolding observe_all
observe_all-silent t = refl

observe_all_ready :
    (k : ClaudeSessionKey) (t : ClaudeTracker) (current : List ObservedSession)
    → HasDistinctPids current
    → any (claude_ready k) (observe_all t current).0 ≡ elim (find_session k current) [
      | none ↦ false
      | some o ↦ becomes_ready (lookup claude_key k t) o
    ]
observe_all_ready k t [] d = rw (observe_all-silent t, find_session-nil k, nothing_silent k)
observe_all_ready k t (o ∷ os) d =
    let parts = ap (any (claude_ready k)) (observe_all-events t o os) in
    let split = any-append (claude_ready k) (observe t o).0 (observe_all (observe t o).1 os).0 in
    let rest = observe_all_ready k (observe t o).1 os d.1 in
    elim (Bool-cases (claude_key_eq (key_of o) k)) [
      | inl same ↦
          let e = (claude_key_eq_iff (key_of o) k).0 same in
          ground (
            arith,
            parts,
            split,
            rest,
            observe_ready k t o,
            find_session-cons o os k,
            find_other o os d.0,
            ap (λ x. find_session x os) e,
            ap (λ x. lookup claude_key x t) e,
          )
      | inr other ↦ ground (
        arith,
        parts,
        split,
        rest,
        observe_ready k t o,
        find_session-cons o os k,
        lookup-observe t o k,
      )
    ]

-- What the passes before the last leave of the session of an observed key.
kept :
    (t : ClaudeTracker) (current : List ObservedSession) (k : ClaudeSessionKey)
    (o : ObservedSession)
    → IsTracker t
    → HasDistinctPids current
    → find_session k current ≡ some o
    → lookup claude_key k (expire t current).1 ≡ lookup claude_key k t
kept t current k o v d f = elim (Option-cases (lookup claude_key k t)) [
  | inl e ↦ ground (arith, lookup-expire t current k v.unique)
  | inr (r, e) ↦ ground (
    arith,
    lookup-expire t current k v.unique,
    v.bounded k r e,
    miss-cases current r,
    is_observed_iff current (key_of r.observed),
    ap (λ x. find_session x current) (v.keyed k r e),
    not_replaced current r d,
  )
]

apply_success-events :
    (t : ClaudeTracker) (current : List ObservedSession)
    → (apply_success t current).0
      ≡ (expire t current).0 ++ (observe_all (expire t current).1 current).0
unfolding apply_success
apply_success-events t current = refl

-- A complete scan that reports each process once, on a tracker that keeps one session for each key
-- under its own key, announces that a session is ready exactly when the scan observes it idle and
-- the tracker held it with the same session id, armed, and with another status than idle.
pub apply_success_ready :
    (k : ClaudeSessionKey) (t : ClaudeTracker) (current : List ObservedSession)
    → IsTracker t
    → HasDistinctPids current
    → any (claude_ready k) (apply_success t current).0 ≡ elim (find_session k current) [
      | none ↦ false
      | some o ↦ becomes_ready (lookup claude_key k t) o
    ]
apply_success_ready k t current v d =
    let parts = ap (any (claude_ready k)) (apply_success-events t current) in
    let last = observe_all_ready k (expire t current).1 current d in
    let split =
      any-append (claude_ready k) (expire t current).0
        (observe_all (expire t current).1 current).0 in
    elim (Option-cases (find_session k current)) [
      | inl f ↦ ground (arith, parts, split, last, expire_silent k t current)
      | inr (o, f) ↦
          ground (arith, parts, split, last, expire_silent k t current, kept t current k o v d f)
    ]
