-- ===== src/Claude/Tracker/Passes.antt =====
-- What each pass of `apply_success` does to the session of one key (src/claude.rs).
use opencode_beacon.Prelude.{
  ◌≤◌, Bool, false, Option, none, some, List, [], ◌∷◌, filter, any, not, eqb, leb, if◌then◌else◌,
  ◌≡◌, refl, ap, arith, is_some_and, filter_option,
}
use opencode_beacon.Prelude.Table.{
  lookup, remove, map_values, HasUniqueKeys, lookup-remove, lookup-map_values, remove-HasUniqueKeys,
  map_values-HasUniqueKeys,
}
use opencode_beacon.Events.{ClaudeSessionKey, claude_key, claude_key_eq, claude_key_eq_iff}
use opencode_beacon.Claude.Tracker.{
  ObservedSession, RetainedSession, ClaudeTracker, key_of, is_replaced, keys_where, remove_keys,
  miss, expire,
}

-- The tracker keeps one session for each key, under its own key, that has missed one scan at most.
pub record IsTracker (t : ClaudeTracker) : Type 0 where
  pub unique : HasUniqueKeys claude_key t
  pub keyed :
      (k : ClaudeSessionKey) (r : RetainedSession)
      → lookup claude_key k t ≡ some r
      → key_of r.observed ≡ k
  pub bounded :
      (k : ClaudeSessionKey) (r : RetainedSession) → lookup claude_key k t ≡ some r → r.misses ≤ 1

-- A scan reports a process once: `seen_pids` in the source.
abbrev pub HasDistinctPids : List ObservedSession → Type 0
HasDistinctPids [] = Unit
HasDistinctPids (o ∷ os) =
    (any (λ p. eqb (key_of p).pid (key_of o).pid) os ≡ false) × HasDistinctPids os

-- The observed session of a key.
unfoldable pub find_session : ClaudeSessionKey → List ObservedSession → Option ObservedSession
find_session k [] = none
find_session k (o ∷ os) = if claude_key_eq (key_of o) k then some o else find_session k os

lookup-remove_keys :
    (ks : List ClaudeSessionKey) (t : ClaudeTracker) (k : ClaudeSessionKey)
    → lookup claude_key k (remove_keys ks t).1
      ≡ (if any (λ j. claude_key_eq j k) ks then none else lookup claude_key k t)
unfolding remove_keys any
lookup-remove_keys [] t k = refl
lookup-remove_keys (j ∷ ks) t k =
    ground (arith, lookup-remove_keys ks (remove claude_key j t) k, lookup-remove claude_key j k t)

any-keys_where :
    (p : RetainedSession → Bool) (t : ClaudeTracker) (k : ClaudeSessionKey)
    → HasUniqueKeys claude_key t
    → any (λ j. claude_key_eq j k) (keys_where p t) ≡ is_some_and (lookup claude_key k t) p
unfolding any keys_where lookup filter
any-keys_where p [] k u = refl
any-keys_where p ((j, r) ∷ t) k u = ground (
  arith,
  any-keys_where p t k u.1,
  claude_key_eq_iff j k,
  u.0,
  λ (e : j ≡ k). ap (λ x. lookup claude_key x t) e,
)

pub lookup-expired :
    (p : RetainedSession → Bool) (t : ClaudeTracker) (k : ClaudeSessionKey)
    → HasUniqueKeys claude_key t
    → lookup claude_key k (remove_keys (keys_where p t) t).1
      ≡ filter_option (λ r. not (p r)) (lookup claude_key k t)
lookup-expired p t k u =
    ground (arith, lookup-remove_keys (keys_where p t) t k, any-keys_where p t k u)

pub remove_keys-HasUniqueKeys :
    (ks : List ClaudeSessionKey) (t : ClaudeTracker)
    → HasUniqueKeys claude_key t
    → HasUniqueKeys claude_key (remove_keys ks t).1
unfolding remove_keys
remove_keys-HasUniqueKeys [] t u = u
remove_keys-HasUniqueKeys (j ∷ ks) t u =
    remove_keys-HasUniqueKeys ks (remove claude_key j t) (remove-HasUniqueKeys claude_key j t u)

-- The tracker of a key before the last pass.
abbrev pub expired : List ObservedSession → RetainedSession → Option RetainedSession
expired current r =
    if is_replaced current r
    then none
    else let r' = miss current r in if leb 2 r'.misses then none else some r'

pub lookup-expire :
    (t : ClaudeTracker) (current : List ObservedSession) (k : ClaudeSessionKey)
    → HasUniqueKeys claude_key t
    → lookup claude_key k (expire t current).1
      ≡ elim (lookup claude_key k t) [ none ↦ none | some r ↦ expired current r ]
unfolding expire
lookup-expire t current k u =
    let t1 = (remove_keys (keys_where (is_replaced current) t) t).1 in
    let u1 = remove_keys-HasUniqueKeys (keys_where (is_replaced current) t) t u in
    let t2 = map_values claude_key (miss current) t1 in
    let u2 = map_values-HasUniqueKeys claude_key (miss current) t1 u1 in
    ground (
      arith,
      lookup-expired (is_replaced current) t k u,
      lookup-map_values claude_key (miss current) k t1,
      lookup-expired (λ r. leb 2 r.misses) t2 k u2,
    )
