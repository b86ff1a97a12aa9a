-- ===== src/Claude/Tracker/Invariant.antt =====
-- The tracker's invariant survives complete and failed scans (src/claude.rs).
use opencode_beacon.Prelude.{
  ◌≤◌, ◌&&◌, Bool, true, false, if◌then◌else◌, count, filter, ap, sym, ◌∙◌, none, some, List, [],
  ◌∷◌, ◌==◌, ◌≡◌, refl, arith, Option-cases, Bool-cases, inl, inr, count,
}
use opencode_beacon.Prelude.Table.{
  lookup, HasUniqueKeys, insert-HasUniqueKeys, map_values-HasUniqueKeys, lookup-map_values,
}
use opencode_beacon.Events.{ClaudeSessionKey, claude_key, claude_key_eq_iff}
use opencode_beacon.Claude.Tracker.{
  ObservedSession, RetainedSession, ClaudeTracker, key_of, is_replaced, keys_where, remove_keys,
  miss, admit, renew, observe, observe_all, expire, apply_success, apply_failure, mark_stale,
  map_values, leb, BeaconEvent, true, Bool, claude_state_projection, claude_key_eq,
}
use opencode_beacon.Claude.Tracker.Passes.{
  IsTracker, HasDistinctPids, find_session, remove_keys-HasUniqueKeys,
}
use opencode_beacon.Claude.Tracker.Scan.{apply_success_exact}

observe-HasUniqueKeys :
    (t : ClaudeTracker) (o : ObservedSession)
    → HasUniqueKeys claude_key t
    → HasUniqueKeys claude_key (observe t o).1
unfolding observe
observe-HasUniqueKeys t o u = elim (Option-cases (lookup claude_key (key_of o) t)) [
  | inl e ↦ rw (e, observe) (insert-HasUniqueKeys claude_key (key_of o) (admit o) t u)
  | inr (r, e) ↦ elim (Bool-cases (r.observed.session.session_id == o.session.session_id)) [
    | inl same ↦ rw (e, same, observe) (insert-HasUniqueKeys claude_key (key_of o) (renew r o) t u)
    | inr other ↦ rw (e, other, observe) (insert-HasUniqueKeys claude_key (key_of o) (admit o) t u)
  ]
]

observe_all-HasUniqueKeys :
    (t : ClaudeTracker) (current : List ObservedSession)
    → HasUniqueKeys claude_key t
    → HasUniqueKeys claude_key (observe_all t current).1
unfolding observe_all
observe_all-HasUniqueKeys t [] u = u
observe_all-HasUniqueKeys t (o ∷ os) u =
    observe_all-HasUniqueKeys (observe t o).1 os (observe-HasUniqueKeys t o u)

expire-HasUniqueKeys :
    (t : ClaudeTracker) (current : List ObservedSession)
    → HasUniqueKeys claude_key t
    → HasUniqueKeys claude_key (expire t current).1
unfolding expire
expire-HasUniqueKeys t current u =
    let t1 = (remove_keys (keys_where (is_replaced current) t) t).1 in
    let t2 = map_values claude_key (miss current) t1 in
    remove_keys-HasUniqueKeys (keys_where (λ r. leb 2 r.misses) t2) t2 (
      map_values-HasUniqueKeys claude_key (miss current) t1
        (remove_keys-HasUniqueKeys (keys_where (is_replaced current) t) t u))

apply_success-HasUniqueKeys :
    (t : ClaudeTracker) (current : List ObservedSession)
    → HasUniqueKeys claude_key t
    → HasUniqueKeys claude_key (apply_success t current).1
unfolding apply_success
apply_success-HasUniqueKeys t current u =
    observe_all-HasUniqueKeys (expire t current).1 current (expire-HasUniqueKeys t current u)

key_found :
    (current : List ObservedSession) (k : ClaudeSessionKey) (o : ObservedSession)
    → find_session k current ≡ some o
    → key_of o ≡ k
unfolding find_session
key_found [] k o h = cc
key_found (p ∷ os) k o h = ground (arith, key_found os k o, claude_key_eq_iff (key_of p) k)

abbrev Kept : ClaudeSessionKey → RetainedSession → Type 0
Kept k r = (key_of r.observed ≡ k) × (r.misses ≤ 1)

kept :
    (t : ClaudeTracker) (current : List ObservedSession) (k : ClaudeSessionKey)
    (r : RetainedSession)
    → IsTracker t
    → HasDistinctPids current
    → lookup claude_key k (apply_success t current).1 ≡ some r
    → Kept k r
kept t current k r v d h = elim (Option-cases (find_session k current)) [
  | inl e ↦ elim (Option-cases (lookup claude_key k t)) [
    | inl e' ↦ absurd (ground (arith, apply_success_exact t current k v d))
    | inr (r', e') ↦ ground (arith, apply_success_exact t current k v d, v.keyed k r' e')
  ]
  | inr (o, e) ↦ ground (arith, apply_success_exact t current k v d, key_found current k o e)
]

-- A complete scan that reports each process once keeps the tracker's invariant: one session for
-- each key, under its own key, that has missed one scan at most.
pub apply_success-IsTracker :
    (t : ClaudeTracker) (current : List ObservedSession)
    → IsTracker t
    → HasDistinctPids current
    → IsTracker (apply_success t current).1
apply_success-IsTracker t current v d = record {
  unique = apply_success-HasUniqueKeys t current v.unique;
  keyed = λ k r h. (kept t current k r v d h).0;
  bounded = λ k r h. (kept t current k r v d h).1;
}

marked :
    (t : ClaudeTracker) (k : ClaudeSessionKey) (r : RetainedSession)
    → IsTracker t
    → lookup claude_key k (map_values claude_key mark_stale t) ≡ some r
    → Kept k r
marked t k r v h = elim (Option-cases (lookup claude_key k t)) [
  | inl e ↦ absurd (ground (arith, lookup-map_values claude_key mark_stale k t))
  | inr (r', e) ↦
      ground (arith, lookup-map_values claude_key mark_stale k t, v.keyed k r' e, v.bounded k r' e)
]

-- Whether an event says that the session is stale.
unfoldable pub says_stale : ClaudeSessionKey → BeaconEvent → Bool
says_stale k (claude_state_projection p) = claude_key_eq p.session.key k && p.stale
says_stale k _ = false

-- The events of a failed scan for one key.
stale_events :
    (t : ClaudeTracker) (k : ClaudeSessionKey)
    → HasUniqueKeys claude_key t
    → ((j : ClaudeSessionKey) (r : RetainedSession)
        → lookup claude_key j t ≡ some r
        → key_of r.observed ≡ j)
    → count (says_stale k) (apply_failure t).0
      ≡ elim (lookup claude_key k t) [ none ↦ 0 | some r ↦ if r.stale then 0 else 1 ]
unfolding apply_failure count says_stale filter lookup
stale_events [] k u h = refl
stale_events ((j, r) ∷ t) k u h =
    let head : key_of r.observed ≡ j =
      h j r (let same = (claude_key_eq_iff j j).1 refl in ground (arith, same)) in
    let tail : (i : ClaudeSessionKey) (q : RetainedSession)
        → lookup claude_key i t ≡ some q
        → key_of q.observed ≡ i =
      λ i q e. h i q (
        ground (
          arith,
          e,
          u.0,
          claude_key_eq_iff j i,
          λ (same : j ≡ i). ap (λ x. lookup claude_key x t) same,
        )) in
    let rest = stale_events t k u.1 tail in
    let named = ap (λ x. claude_key_eq x k) head in
    let gone : claude_key_eq j k ≡ true → lookup claude_key k t ≡ none =
      λ same. sym (ap (λ x. lookup claude_key x t) ((claude_key_eq_iff j k).0 same)) ∙ u.0 in
    elim (Bool-cases r.stale) [
      | inl stale ↦ elim (Bool-cases (claude_key_eq j k)) [
        | inl same ↦ ground (arith, stale, same, rest, gone same)
        | inr other ↦ ground (arith, stale, other, rest)
      ]
      | inr fresh_ ↦ elim (Bool-cases (claude_key_eq j k)) [
        | inl same ↦ ground (arith, fresh_, same, rest, gone same, named)
        | inr other ↦ ground (arith, fresh_, other, rest, named)
      ]
    ]

-- A failed scan removes no session, counts no miss and changes no arm: each session is stale after
-- it and else as before, a session that was not stale is said to be stale once, and no other is;
-- and the invariant stays.
pub apply_failure-IsTracker :
    (t : ClaudeTracker) (k : ClaudeSessionKey)
    → IsTracker t
    → IsTracker (apply_failure t).1
      × (lookup claude_key k (apply_failure t).1 ≡ elim (lookup claude_key k t) [
        | none ↦ none
        | some r ↦
            some
              (record { observed = r.observed; misses = r.misses; armed = r.armed; stale = true })
      ])
      × (count (says_stale k) (apply_failure t).0
          ≡ elim (lookup claude_key k t) [ none ↦ 0 | some r ↦ if r.stale then 0 else 1 ])
unfolding apply_failure
apply_failure-IsTracker t k v = (
  record {
    unique = map_values-HasUniqueKeys claude_key mark_stale t v.unique;
    keyed = λ j r h. (marked t j r v h).0;
    bounded = λ j r h. (marked t j r v h).1;
  },
  elim (Option-cases (lookup claude_key k t)) [
    | inl e ↦ ground (arith, e, lookup-map_values claude_key mark_stale k t)
    | inr (r, e) ↦ ground (arith, e, lookup-map_values claude_key mark_stale k t)
  ],
  stale_events t k v.unique v.keyed,
)
