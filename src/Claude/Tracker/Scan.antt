-- ===== src/Claude/Tracker/Scan.antt =====
-- `apply_success`, key by key, and the invariant of the tracker (src/claude.rs).
use opencode_beacon.Prelude.{
  ℕ, Bool, true, false, Option, none, some, List, [], ◌∷◌, any, not, ◌&&◌, ◌||◌, ◌==◌, eqb,
  if◌then◌else◌, ◌≡◌, refl, ap, ◌∙◌, arith, is_some, Option-cases, Bool-cases, inl, inr, eqb→≡,
}
use opencode_beacon.Prelude.Table.{lookup, lookup-insert}
use opencode_beacon.Events.{
  ClaudeSessionKey, claude_key, claude_key_eq, claude_key_eq_iff, ClaudeSession, ClaudeStatus,
  claude_busy, claude_waiting, claude_idle, claude_unknown, claude_status_eq,
}
use opencode_beacon.Claude.Tracker.{
  ObservedSession, RetainedSession, ClaudeTracker, key_of, is_replaced, is_observed, miss, admit,
  renew, observe, observe_all, expire, apply_success, add_miss,
}
use opencode_beacon.Claude.Tracker.Passes.{IsTracker, HasDistinctPids, find_session, lookup-expire}

-- What the last pass leaves of an observed session.
abbrev pub settled : Option RetainedSession → ObservedSession → RetainedSession
settled none o = admit o
settled (some r) o =
    if not (r.observed.session.session_id == o.session.session_id) then admit o else renew r o

pub lookup-observe :
    (t : ClaudeTracker) (o : ObservedSession) (k : ClaudeSessionKey)
    → lookup claude_key k (observe t o).1 ≡ (
        if claude_key_eq (key_of o) k
        then some (settled (lookup claude_key (key_of o) t) o)
        else lookup claude_key k t)
unfolding observe
lookup-observe t o k = elim (Option-cases (lookup claude_key (key_of o) t)) [
  | inl e ↦ ground (arith, e, lookup-insert claude_key (key_of o) k (admit o) t)
  | inr (r, e) ↦ ground (
    arith,
    e,
    lookup-insert claude_key (key_of o) k (admit o) t,
    lookup-insert claude_key (key_of o) k (renew r o) t,
  )
]

-- Another session of the scan has another key, since it has another pid.
pub find_other :
    (o : ObservedSession) (os : List ObservedSession)
    → any (λ p. eqb (key_of p).pid (key_of o).pid) os ≡ false
    → find_session (key_of o) os ≡ none
unfolding any find_session
find_other o [] h = refl
find_other o (p ∷ os) h = ground (arith, find_other o os, claude_key_eq_iff (key_of p) (key_of o))

pub find_session-cons :
    (o : ObservedSession) (os : List ObservedSession) (k : ClaudeSessionKey)
    → find_session k (o ∷ os) ≡ (if claude_key_eq (key_of o) k then some o else find_session k os)
unfolding find_session
find_session-cons o os k = refl

pub observe_all-cons :
    (t : ClaudeTracker) (o : ObservedSession) (os : List ObservedSession)
    → (observe_all t (o ∷ os)).1 ≡ (observe_all (observe t o).1 os).1
unfolding observe_all
observe_all-cons t o os = refl

pub observe_all-nil : (t : ClaudeTracker) → (observe_all t []).1 ≡ t
unfolding observe_all
observe_all-nil t = refl

pub find_session-nil : (k : ClaudeSessionKey) → find_session k [] ≡ none
unfolding find_session
find_session-nil k = refl

lookup-observe_all :
    (t : ClaudeTracker) (current : List ObservedSession) (k : ClaudeSessionKey)
    → HasDistinctPids current
    → lookup claude_key k (observe_all t current).1 ≡ elim (find_session k current) [
      | none ↦ lookup claude_key k t
      | some o ↦ some (settled (lookup claude_key k t) o)
    ]
lookup-observe_all t [] k d = rw (observe_all-nil t, find_session-nil k)
lookup-observe_all t (o ∷ os) k d = elim (Bool-cases (claude_key_eq (key_of o) k)) [
  | inl same ↦
      let e = (claude_key_eq_iff (key_of o) k).0 same in
      ground (
        arith,
        observe_all-cons t o os,
        find_session-cons o os k,
        lookup-observe_all (observe t o).1 os k d.1,
        lookup-observe t o k,
        find_other o os d.0,
        ap (λ x. find_session x os) e,
        ap (λ x. lookup claude_key x t) e,
      )
  | inr other ↦ ground (
    arith,
    observe_all-cons t o os,
    find_session-cons o os k,
    lookup-observe_all (observe t o).1 os k d.1,
    lookup-observe t o k,
  )
]

abbrev pub has_pid : ℕ → ObservedSession → Bool
has_pid pid p = eqb (key_of p).pid pid

pub is_observed_iff :
    (current : List ObservedSession) (k : ClaudeSessionKey)
    → is_observed current k ≡ is_some (find_session k current)
unfolding is_observed any find_session
is_observed_iff [] k = refl
is_observed_iff (o ∷ os) k = ground (arith, is_observed_iff os k)

pid_found :
    (current : List ObservedSession) (k : ClaudeSessionKey)
    → is_some (find_session k current) ≡ true
    → any (has_pid k.pid) current ≡ true
unfolding any find_session
pid_found [] k h = cc
pid_found (o ∷ os) k h = ground (arith, pid_found os k, claude_key_eq_iff (key_of o) k)

replaced_nil : (r : RetainedSession) → is_replaced [] r ≡ false
unfolding is_replaced any
replaced_nil r = refl

replaced_cons :
    (o : ObservedSession) (os : List ObservedSession) (r : RetainedSession)
    → is_replaced (o ∷ os) r ≡ (
        (eqb (key_of o).pid (key_of r.observed).pid
          && not (claude_key_eq (key_of o) (key_of r.observed)))
        || is_replaced os r)
unfolding is_replaced any
replaced_cons o os r = refl

replaced_pid :
    (current : List ObservedSession) (r : RetainedSession)
    → any (has_pid (key_of r.observed).pid) current ≡ false
    → is_replaced current r ≡ false
unfolding any
replaced_pid [] r h = replaced_nil r
replaced_pid (o ∷ os) r h = ground (arith, replaced_pid os r, replaced_cons o os r)

pub not_replaced :
    (current : List ObservedSession) (r : RetainedSession)
    → HasDistinctPids current
    → is_some (find_session (key_of r.observed) current) ≡ true
    → is_replaced current r ≡ false
not_replaced [] r d h = replaced_nil r
not_replaced (o ∷ os) r d h = elim (Bool-cases (claude_key_eq (key_of o) (key_of r.observed))) [
  | inl same ↦ ground (
    arith,
    replaced_cons o os r,
    replaced_pid os r,
    d.0,
    ap (λ x. any (has_pid x.pid) os) ((claude_key_eq_iff (key_of o) (key_of r.observed)).0 same),
  )
  | inr other ↦
      let found : is_some (find_session (key_of r.observed) os) ≡ true =
        ground (arith, find_session-cons o os (key_of r.observed)) in
      elim (Bool-cases (eqb (key_of o).pid (key_of r.observed).pid)) [
        | inl pid ↦ absurd (
            ground (
              arith,
              pid_found os (key_of r.observed) found,
              d.0,
              ap (λ x. any (has_pid x) os) (eqb→≡ (key_of o).pid (key_of r.observed).pid pid),
            ))
        | inr pid ↦ ground (arith, replaced_cons o os r, not_replaced os r d.1 found)
      ]
]

-- What the first four passes leave of a session that is not observed.
abbrev missed : List ObservedSession → RetainedSession → Option RetainedSession
missed current r =
    if is_replaced current r
    then none
    else if eqb r.misses 0
    then some (record r { misses = 1; stale = true })
    else none

pub miss-cases :
    (current : List ObservedSession) (r : RetainedSession)
    → miss current r ≡ (
        if is_observed current (key_of r.observed)
        then r
        else record r { misses = add_miss r.misses; stale = true })
unfolding miss
miss-cases current r = refl

pub apply_success-observe_all :
    (t : ClaudeTracker) (current : List ObservedSession)
    → (apply_success t current).1 ≡ (observe_all (expire t current).1 current).1
unfolding apply_success
apply_success-observe_all t current = refl

lookup-apply_success :
    (t : ClaudeTracker) (current : List ObservedSession) (k : ClaudeSessionKey)
    → IsTracker t
    → HasDistinctPids current
    → lookup claude_key k (apply_success t current).1 ≡ elim (find_session k current) [
      | none ↦ elim (lookup claude_key k t) [ none ↦ none | some r ↦ missed current r ]
      | some o ↦ some (settled (lookup claude_key k t) o)
    ]
lookup-apply_success t current k v d = elim (Option-cases (lookup claude_key k t)) [
  | inl e ↦ ground (
    arith,
    apply_success-observe_all t current,
    lookup-observe_all (expire t current).1 current k d,
    lookup-expire t current k v.unique,
  )
  | inr (r, e) ↦ ground (
    arith,
    apply_success-observe_all t current,
    lookup-observe_all (expire t current).1 current k d,
    lookup-expire t current k v.unique,
    v.bounded k r e,
    miss-cases current r,
    is_observed_iff current (key_of r.observed),
    ap (λ x. find_session x current) (v.keyed k r e),
    not_replaced current r d,
  )
]

-- Whether the session is retained already, the same session of the same process, and armed.
abbrev pub was_armed : Option RetainedSession → ObservedSession → Bool
was_armed none o = false
was_armed (some r) o = r.observed.session.session_id == o.session.session_id && r.armed

-- Whether it is retained with the status that is observed.
abbrev pub had_status : Option RetainedSession → ObservedSession → Bool
had_status none o = false
had_status (some r) o =
    r.observed.session.session_id == o.session.session_id
    && claude_status_eq r.observed.status o.status

-- Whether the session is armed after the scan, by the status that is observed: a session that
-- becomes busy or waiting is armed, one that becomes idle is not, and else nothing changes.
abbrev pub armed_after : ClaudeStatus → Option RetainedSession → ObservedSession → Bool
armed_after claude_busy before o = not (had_status before o) || was_armed before o
armed_after claude_waiting before o = not (had_status before o) || was_armed before o
armed_after claude_idle before o = had_status before o && was_armed before o
armed_after claude_unknown before o = was_armed before o

-- The session as observed, with no miss, and not stale.
abbrev pub fresh : Option RetainedSession → ObservedSession → RetainedSession
fresh before o = record {
  observed = o;
  misses = 0;
  armed = armed_after o.status before o;
  stale = false;
}

-- A session that is not observed is gone if another session has its process, or if the scan before
-- missed it too; else it is stale, with one miss.
abbrev pub unobserved : List ObservedSession → RetainedSession → Option RetainedSession
unobserved current r =
    if any (has_pid (key_of r.observed).pid) current
    then none
    else if eqb r.misses 0
    then some (record { observed = r.observed; misses = 1; armed = r.armed; stale = true })
    else none

renewed_arm :
    (status : ClaudeStatus) (session : ClaudeSession) (r : RetainedSession)
    → settled (some r) (record { session = session; status = status })
      ≡ fresh (some r) (record { session = session; status = status })
unfolding renew claude_status_eq
renewed_arm claude_busy session r = ground arith
renewed_arm claude_waiting session r = ground arith
renewed_arm claude_idle session r = ground arith
renewed_arm claude_unknown session r = ground arith

settled-fresh :
    (before : Option RetainedSession) (status : ClaudeStatus) (session : ClaudeSession)
    → settled before (record { session = session; status = status })
      ≡ fresh before (record { session = session; status = status })
settled-fresh none claude_busy session = refl
settled-fresh none claude_waiting session = refl
settled-fresh none claude_idle session = refl
settled-fresh none claude_unknown session = refl
settled-fresh (some r) status session = renewed_arm status session r

-- Of the sessions of a scan, none has the key, so one with its pid is another.
replaced-has_pid :
    (current : List ObservedSession) (r : RetainedSession)
    → find_session (key_of r.observed) current ≡ none
    → is_replaced current r ≡ any (has_pid (key_of r.observed).pid) current
unfolding any
replaced-has_pid [] r h = replaced_nil r
replaced-has_pid (o ∷ os) r h =
    ground (
      arith,
      replaced_cons o os r,
      find_session-cons o os (key_of r.observed),
      replaced-has_pid os r,
    )

missed-unobserved :
    (current : List ObservedSession) (r : RetainedSession) (k : ClaudeSessionKey)
    → key_of r.observed ≡ k
    → find_session k current ≡ none
    → missed current r ≡ unobserved current r
missed-unobserved current r k key h =
    rw (replaced-has_pid current r (ap (λ x. find_session x current) key ∙ h)) refl

-- After a complete scan that reports each process once, a tracker that keeps one session for each
-- key under its own key holds for each key: the observed session, with no miss and not stale, if
-- the scan has one, armed as its old and new status say; else nothing, if the scan has another
-- session of the process or this is the second scan in a row that misses it; else the session as
-- it was, stale, with one miss.
pub apply_success_exact :
    (t : ClaudeTracker) (current : List ObservedSession) (k : ClaudeSessionKey)
    → IsTracker t
    → HasDistinctPids current
    → lookup claude_key k (apply_success t current).1 ≡ elim (find_session k current) [
      | none ↦ elim (lookup claude_key k t) [ none ↦ none | some r ↦ unobserved current r ]
      | some o ↦ some (fresh (lookup claude_key k t) o)
    ]
apply_success_exact t current k v d = elim (Option-cases (find_session k current)) [
  | inl e ↦ elim (Option-cases (lookup claude_key k t)) [
    | inl f ↦ ground (arith, lookup-apply_success t current k v d, e, f)
    | inr (r, f) ↦ ground (
      arith,
      lookup-apply_success t current k v d,
      e,
      f,
      missed-unobserved current r k (v.keyed k r f) e,
    )
  ]
  | inr (o, e) ↦ ground (
    arith,
    lookup-apply_success t current k v d,
    e,
    settled-fresh (lookup claude_key k t) o.status o.session,
  )
]
