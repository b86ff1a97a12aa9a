-- ===== src/Memory/Sampler/History.antt =====
-- What a scope's history keeps to: the size bound, and the peak of what was observed
-- (src/memory.rs).
use opencode_beacon.Prelude.{
  ℕ, ◌≤◌, Bool, false, some, List, [], ◌∷◌, ◌++◌, any, length, ltb, unwrap_or, ◌≡◌, refl, arith,
  any-append,
}
use opencode_beacon.Prelude.Files.{FilePath}
use opencode_beacon.Memory.{MemoryValues, Sample, ScopeHistory, new_history, max_history_samples}
use opencode_beacon.Memory.Slope.{prune_history}
use opencode_beacon.Memory.Sampler.{bound_samples, add_sample, max}

abbrev pub above : ℕ → Sample → Bool
above peak x = ltb peak x.1

-- At most 721 samples, none of them nor the last values above the observed peak.
pub record IsHistory (h : ScopeHistory) : Type 0 where
  pub bounded : length h.samples ≤ max_history_samples
  pub covered : any (above (unwrap_or h.observed_peak 0)) h.samples ≡ false
  pub topped : (v : MemoryValues) → h.values ≡ some v → v.current ≤ unwrap_or h.observed_peak 0

pub new_history-IsHistory : (path : FilePath) → IsHistory (new_history path)
unfolding any
new_history-IsHistory path = record { bounded = omega arith; covered = refl; topped = λ v h. cc }

length-bound_samples : (xs : List Sample) → length (bound_samples xs) ≤ max_history_samples
unfolding bound_samples
length-bound_samples [] = omega arith
length-bound_samples (x ∷ xs) = ground (arith, length-bound_samples xs)

any-bound_samples :
    (p : Sample → Bool) (xs : List Sample) → any p xs ≡ false → any p (bound_samples xs) ≡ false
unfolding bound_samples any
any-bound_samples p [] h = refl
any-bound_samples p (x ∷ xs) h = ground (arith, any-bound_samples p xs)

length-prune_history : (now : ℕ) (xs : List Sample) → length (prune_history now xs) ≤ length xs
unfolding prune_history
length-prune_history now [] = omega arith
length-prune_history now (x ∷ xs) = ground (arith, length-prune_history now xs)

any-prune_history :
    (now : ℕ) (p : Sample → Bool) (xs : List Sample)
    → any p xs ≡ false
    → any p (prune_history now xs) ≡ false
unfolding prune_history any
any-prune_history now p [] h = refl
any-prune_history now p (x ∷ xs) h = ground (arith, any-prune_history now p xs)

above_mono :
    (a b : ℕ) (xs : List Sample) → a ≤ b → any (above a) xs ≡ false → any (above b) xs ≡ false
unfolding any
above_mono a b [] le h = refl
above_mono a b (x ∷ xs) le h = ground (arith, above_mono a b xs le)

pub prune-IsHistory :
    (now : ℕ) (h : ScopeHistory)
    → IsHistory h
    → IsHistory (record h { samples = prune_history now h.samples })
prune-IsHistory now h v = record {
  bounded = omega (arith, v.bounded, length-prune_history now h.samples);
  covered = any-prune_history now (above (unwrap_or h.observed_peak 0)) h.samples v.covered;
  topped = v.topped;
}

one_sample : (now c p : ℕ) → any (above (max p c)) ((now, c) ∷ []) ≡ false
unfolding any
one_sample now c p = ground arith

pub add_sample-IsHistory :
    (now : ℕ) (v : MemoryValues) (h : ScopeHistory) → IsHistory h → IsHistory (add_sample now v h)
unfolding add_sample
add_sample-IsHistory now v h i =
    let p = unwrap_or h.observed_peak 0 in
    let top = max p v.current in
    record {
      bounded = length-bound_samples (h.samples ++ ((now, v.current) ∷ []));
      covered = any-bound_samples (above top) (h.samples ++ ((now, v.current) ∷ [])) (
          ground (
            arith,
            any-append (above top) h.samples ((now, v.current) ∷ []),
            above_mono p top h.samples (ground arith) i.covered,
            one_sample now v.current p,
          ));
      topped = λ w e. ground arith;
    }
