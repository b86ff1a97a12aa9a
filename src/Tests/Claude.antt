-- ===== src/Tests/Claude.antt =====
-- The Claude tracker on a concrete scan: one process goes idle, another one is new.
use opencode_beacon.Prelude.{
  count, if◌then◌else◌, sym, ◌∙◌, ap, Bool-cases, inl, inr, if◌then◌else◌, ◌≡◌, refl, none, some,
  true, false, List, [], ◌∷◌, arith, any,
}
use opencode_beacon.Prelude.Table.{lookup}
use opencode_beacon.Events.{
  ClaudeSession, ClaudeSessionKey, ClaudeStatus, claude_key, claude_key_eq, claude_key_eq_iff,
  claude_busy, claude_idle, claude_key_eq,
}
use opencode_beacon.Claude.Tracker.{
  ObservedSession, RetainedSession, ClaudeTracker, apply_success, apply_failure, admit, key_of,
}
use opencode_beacon.Claude.Tracker.Passes.{IsTracker, HasDistinctPids, find_session}
use opencode_beacon.Claude.Tracker.Scan.{apply_success_exact, fresh, unobserved}
use opencode_beacon.Claude.Tracker.Invariant.{
  apply_success-IsTracker, apply_failure-IsTracker, says_stale,
}
use opencode_beacon.Claude.Tracker.Ready.{apply_success_ready, claude_ready, becomes_ready}

abbrev first_key : ClaudeSessionKey
first_key = record { pid = 41; start_time = 7 }

abbrev session_of : ClaudeSessionKey → ClaudeSession
session_of key = record {
  key = key;
  session_id = "cl_1";
  cwd = "/work";
  name = none;
  has_tty = true;
}

abbrev seen : ClaudeSessionKey → ClaudeStatus → ObservedSession
seen key status = record { session = session_of key; status = status }

abbrev working : RetainedSession
working = admit (seen first_key claude_busy)

abbrev tracked : ClaudeTracker
tracked = (first_key, working) ∷ []

abbrev scanned : List ObservedSession
scanned = seen first_key claude_idle ∷ seen (record { pid = 42; start_time = 9 }) claude_busy ∷ []

found_first :
    (k : ClaudeSessionKey)
    → lookup claude_key k tracked ≡ (if claude_key_eq first_key k then some working else none)
unfolding lookup
found_first k = refl

tracked_found :
    (k : ClaudeSessionKey) (r : RetainedSession)
    → lookup claude_key k tracked ≡ some r
    → (r ≡ working) × (k ≡ first_key)
tracked_found k r h = elim (Bool-cases (claude_key_eq first_key k)) [
  | inl same ↦
      (ground (arith, h, found_first k, same), sym ((claude_key_eq_iff first_key k).0 same))
  | inr other ↦ absurd (ground (arith, h, found_first k, other))
]

tracked-IsTracker : IsTracker tracked
unfolding lookup
tracked-IsTracker = record {
  unique = (refl, record {});
  keyed =
      λ k r h. ap (λ x. key_of x.observed) (tracked_found k r h).0 ∙ sym (tracked_found k r h).1;
  bounded = λ k r h. ground (arith, ap (λ x. x.misses) (tracked_found k r h).0);
}

scanned-HasDistinctPids : HasDistinctPids scanned
unfolding any
scanned-HasDistinctPids = (refl, (refl, record {}))

apply_success_exact_example :
    lookup claude_key first_key (apply_success tracked scanned).1
    ≡ elim (find_session first_key scanned) [
      | none ↦ elim (lookup claude_key first_key tracked) [
        | none ↦ none
        | some r ↦ unobserved scanned r
      ]
      | some o ↦ some (fresh (lookup claude_key first_key tracked) o)
    ]
apply_success_exact_example =
    apply_success_exact tracked scanned first_key tracked-IsTracker scanned-HasDistinctPids

apply_success_ready_example :
    any (claude_ready first_key) (apply_success tracked scanned).0
    ≡ elim (find_session first_key scanned) [
      | none ↦ false
      | some o ↦ becomes_ready (lookup claude_key first_key tracked) o
    ]
apply_success_ready_example =
    apply_success_ready first_key tracked scanned tracked-IsTracker scanned-HasDistinctPids

apply_success-IsTracker_example : IsTracker (apply_success tracked scanned).1
apply_success-IsTracker_example =
    apply_success-IsTracker tracked scanned tracked-IsTracker scanned-HasDistinctPids

apply_failure-IsTracker_example :
    IsTracker (apply_failure tracked).1
    × (lookup claude_key first_key (apply_failure tracked).1
        ≡ elim (lookup claude_key first_key tracked) [
          | none ↦ none
          | some r ↦
              some
                (record { observed = r.observed; misses = r.misses; armed = r.armed; stale = true })
        ])
    × (count (says_stale first_key) (apply_failure tracked).0
        ≡ elim (lookup claude_key first_key tracked) [
          | none ↦ 0
          | some r ↦ if r.stale then 0 else 1
        ])
apply_failure-IsTracker_example = apply_failure-IsTracker tracked first_key tracked-IsTracker

ready_run : any (claude_ready first_key) (apply_success tracked scanned).0 ≡ true
unfolding apply_success claude_ready any
ready_run = refl
