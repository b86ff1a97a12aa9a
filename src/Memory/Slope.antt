-- ===== src/Memory/Slope.antt =====
-- `slope` and `prune_history` (src/memory.rs). The oldest sample is the first of the list.
pub mod Exact
use opencode_beacon.Prelude.{
  ℕ, ◌-◌, ◌*◌, ◌/◌, Bool, true, false, Option, none, some, List, [], ◌∷◌, leb, ltb, if◌then◌else◌,
  ◌≡◌, refl, arith,
}
use opencode_beacon.Prelude.Integers.{ℤ, ◌⊖◌, clamp, saturating_mul, div_toward_zero}
use opencode_beacon.Memory.{Sample, second, slope_window, history_window}

-- `samples.back()`
abbrev pub last : List Sample → Option Sample
last [] = none
last (x ∷ []) = some x
last (x ∷ y ∷ xs) = last (y ∷ xs)

-- `iter().rev().find(|(sampled, _)| sampled <= cutoff)`
unfoldable pub last_before : ℕ → List Sample → Option Sample
last_before cutoff [] = none
last_before cutoff (x ∷ xs) = elim (last_before cutoff xs) [
  | none ↦ if leb x.0 cutoff then some x else none
  | some y ↦ some y
]

unfoldable pub slope : List Sample → Option ℤ
unfolding last_before ◌⊖◌ clamp saturating_mul div_toward_zero
slope samples = elim (last samples) [
  | none ↦ none
  | some newest ↦
      if ltb newest.0 slope_window
      then none
      else elim (last_before (newest.0 - slope_window) samples) [
        | none ↦ none
        | some old ↦
            let seconds = (newest.0 - old.0) / second in
            if ltb seconds (slope_window / second)
            then none
            else let delta = newest.1 ⊖ old.1 in
              let per_minute = div_toward_zero (saturating_mul 128 delta 60) seconds in
              some (clamp 64 per_minute)
      ]
]

-- The samples that are older than the window leave at the front, up to the first that is not.
unfoldable pub prune_history : ℕ → List Sample → List Sample
prune_history now [] = []
prune_history now (x ∷ xs) =
    let rest = prune_history now xs in if ltb history_window (now - x.0) then rest else x ∷ xs
