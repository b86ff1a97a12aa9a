-- ===== src/Client/Frames/Bounds.antt =====
-- The decoder ends, and the sizes of its frames and of its buffer are bounded (src/client.rs).
use mathlib.Core.Path.{subst}
use mathlib.Core.Logic.{◌≢◌}
use opencode_beacon.Prelude.{
  ℕ, ◌+◌, ◌-◌, ◌≤◌, ◌<◌, Bool, true, false, Option, none, some, List, [], ◌∷◌, leb, eqb, ltb,
  length, is_some, ◌≡◌, refl, sym, ◌∙◌, arith, Bool-cases, inl, inr, ◌⊎◌,
}
use opencode_beacon.Monitor.Sink.{SourceEvent}
use opencode_beacon.Client.Parse.{cr, lf, Decoded, ok, err}
use opencode_beacon.Client.Frames.{
  drop, leading_line_ending_length, incomplete_frame_is_too_large, frame_end_from, scan, ending,
  two, one, other, waits, max_sse_frame_size,
}
use opencode_beacon.Client.Frames.Incremental.{
  is_other, is_waiting, is_one, is_two, ending_cases, length-drop, byte_cases, finds, forgets_plain,
  plain_ending,
}

-- A line ending of one or two bytes ends at the position.
IsPrevious : Option ℕ → ℕ → Type 0
IsPrevious none position = Unit
IsPrevious (some p) position = (p + 1 ≤ position) × (position ≤ p + 2)

-- The end of a frame, with its delimiter.
pub record IsFrame (limit : ℕ) (frame : ℕ × ℕ) : Type 0 where
  pub long : 2 ≤ frame.1
  pub short : frame.1 ≤ 3
  pub within : frame.0 + frame.1 ≤ limit

wider :
    (limit limit' : ℕ) (frame : ℕ × ℕ) → limit ≤ limit' → IsFrame limit frame → IsFrame limit' frame
wider limit limit' frame h r = record {
  long = r.long;
  short = r.short;
  within = omega (arith, r.within, h);
}

empty_scan :
    (position : ℕ) (previous : Option ℕ) (a : Bool) (frame : ℕ × ℕ)
    → scan [] position previous a ≢ some frame
unfolding scan
empty_scan position previous a frame = ground arith

found-IsFrame :
    (position p limit : ℕ) (frame : ℕ × ℕ)
    → (p + 1 ≤ position) × (position ≤ p + 2)
    → position + 1 ≤ limit
    → some (p, position + 1 - p) ≡ some frame
    → IsFrame limit frame
found-IsFrame position p limit frame h room e =
    let same : (p, position + 1 - p) ≡ frame = ground (arith, e) in
    subst (IsFrame limit) same (record {
      long = omega (arith, h.0);
      short = omega (arith, h.1);
      within = omega (arith, h.0, room);
    })

after_other :
    (c d : ℕ) (xs : List ℕ) (position : ℕ) (previous : Option ℕ) (a : Bool)
    → ending c (some d) (is_some previous) a ≡ other
    → scan (c ∷ d ∷ xs) position previous a ≡ scan (d ∷ xs) (position + 1) none a
unfolding scan
after_other c d xs position previous a k = rw (k, scan) refl

after_one :
    (c d : ℕ) (xs : List ℕ) (position : ℕ) (a : Bool)
    → ending c (some d) false a ≡ one
    → scan (c ∷ d ∷ xs) position none a ≡ scan (d ∷ xs) (position + 1) (some position) a
unfolding scan
after_one c d xs position a k = rw (k, scan) refl

after_two :
    (c d : ℕ) (xs : List ℕ) (position : ℕ) (a : Bool)
    → ending c (some d) false a ≡ two
    → scan (c ∷ d ∷ xs) position none a ≡ scan xs (position + 2) (some position) a
unfolding scan
after_two c d xs position a k = rw (k, scan) refl

after_waits :
    (c d : ℕ) (xs : List ℕ) (position : ℕ) (previous : Option ℕ) (a : Bool)
    → ending c (some d) (is_some previous) a ≡ waits
    → scan (c ∷ d ∷ xs) position previous a ≡ none
unfolding scan
after_waits c d xs position previous a k = rw (k, scan) refl

last_byte : (c position : ℕ) (a : Bool) → scan (c ∷ []) position none a ≡ none
unfolding scan
last_byte c position a = elim (ending_cases (ending c none false a)) [
  | is_other k ↦ rw (k, scan) refl
  | is_waiting k ↦ rw (k, scan) refl
  | is_one k ↦ rw (k, scan) refl
  | is_two k ↦ rw (k, scan) refl
]

last_plain :
    (c position p : ℕ) (a : Bool)
    → eqb c cr ≡ false
    → eqb c lf ≡ false
    → scan (c ∷ []) position (some p) a ≡ none
last_plain c position p a x y = forgets_plain c [] position p a x y ∙ last_byte c position a

-- A line ending right after another one.
finds-IsFrame :
    (c : ℕ) (xs : List ℕ) (position p : ℕ) (a : Bool) (frame : ℕ × ℕ)
    → (p + 1 ≤ position) × (position ≤ p + 2)
    → (eqb c cr ≡ true) ⊎ (eqb c lf ≡ true)
    → scan (c ∷ xs) position (some p) a ≡ some frame
    → IsFrame (position + length (c ∷ xs)) frame
finds-IsFrame c xs position p a frame h ends e =
    found-IsFrame position p (position + length (c ∷ xs)) frame h (omega arith)
      (sym (finds c xs position p a ends) ∙ e)

scan-IsFrame :
    (xs : List ℕ) (position : ℕ) (previous : Option ℕ) (a : Bool) (frame : ℕ × ℕ)
    → IsPrevious previous position
    → scan xs position previous a ≡ some frame
    → IsFrame (position + length xs) frame
unfolding IsPrevious
scan-IsFrame [] position previous a frame h e = absurd (empty_scan position previous a frame e)
scan-IsFrame (c ∷ []) position none a frame h e =
    absurd (let k = last_byte c position a in ground (arith, e, k))
scan-IsFrame (c ∷ []) position (some p) a frame h e = elim (byte_cases c) [
  | inl (x, y) ↦ absurd (let k = last_plain c position p a x y in ground (arith, e, k))
  | inr ends ↦ finds-IsFrame c [] position p a frame h ends e
]
scan-IsFrame (c ∷ d ∷ xs) position none a frame h e =
    elim (ending_cases (ending c (some d) false a)) [
      | is_other k ↦
          let r =
            scan-IsFrame (d ∷ xs) (position + 1) none a frame tt
              (sym (after_other c d xs position none a k) ∙ e) in
          wider (position + 1 + length (d ∷ xs)) _ frame (omega arith) r
      | is_waiting k ↦
          absurd
            (let none_found = after_waits c d xs position none a k in ground (arith, e, none_found))
      | is_one k ↦
          let r =
            scan-IsFrame (d ∷ xs) (position + 1) (some position) a frame (omega arith, omega arith)
              (sym (after_one c d xs position a k) ∙ e) in
          wider (position + 1 + length (d ∷ xs)) _ frame (omega arith) r
      | is_two k ↦
          let r =
            scan-IsFrame xs (position + 2) (some position) a frame (omega arith, omega arith)
              (sym (after_two c d xs position a k) ∙ e) in
          wider (position + 2 + length xs) _ frame (omega arith) r
    ]
scan-IsFrame (c ∷ d ∷ xs) position (some p) a frame h e = elim (byte_cases c) [
  | inr ends ↦ finds-IsFrame c (d ∷ xs) position p a frame h ends e
  | inl (x, y) ↦
      let r =
        scan-IsFrame (d ∷ xs) (position + 1) none a frame tt
          (sym (after_other c d xs position (some p) a (plain_ending c (some d) true a x y)) ∙ e) in
      wider (position + 1 + length (d ∷ xs)) _ frame (omega arith) r
]

pub leading-positive :
    (buffer : List ℕ) (a : Bool) (k : ℕ)
    → leading_line_ending_length buffer a ≡ some k
    → (1 ≤ k) × (1 ≤ length buffer)
unfolding leading_line_ending_length
leading-positive [] a k e = absurd (ground (arith, e))
leading-positive (c ∷ []) a k e = (ground (arith, e), omega arith)
leading-positive (c ∷ d ∷ xs) a k e = (ground (arith, e), omega arith)

pub frame_end_from-IsFrame :
    (buffer : List ℕ) (start : ℕ) (a : Bool) (frame : ℕ × ℕ)
    → frame_end_from buffer start a ≡ some frame
    → IsFrame (start + length (drop start buffer)) frame × (1 ≤ length buffer)
unfolding frame_end_from drop IsPrevious
frame_end_from-IsFrame [] start a frame e = absurd (empty_scan start none a frame e)
frame_end_from-IsFrame (c ∷ xs) start a frame e =
    (scan-IsFrame (drop start (c ∷ xs)) start none a frame tt e, omega arith)

pub shorter :
    (n : ℕ) (buffer : List ℕ) → 1 ≤ n → 1 ≤ length buffer → length (drop n buffer) < length buffer
shorter n buffer h some_bytes = omega (arith, h, some_bytes, length-drop n buffer)

-- The most bytes that the decoder takes or keeps for one frame: 1 MiB and a delimiter.
abbrev pub frame_limit : ℕ
frame_limit = max_sse_frame_size + 3

pub frame_bounded : (n k : ℕ) → leb n max_sse_frame_size ≡ true → k ≤ 3 → n + k ≤ frame_limit
frame_bounded n k h short = ground (arith, h, short)

pub incomplete_bounded :
    (buffer : List ℕ) → incomplete_frame_is_too_large buffer ≡ false → length buffer ≤ frame_limit
unfolding incomplete_frame_is_too_large
incomplete_bounded buffer h = elim (Bool-cases (leb (length buffer) max_sse_frame_size)) [
  | inl small ↦ ground (arith, small)
  | inr large ↦ elim (Bool-cases (ltb 3 (length (drop max_sse_frame_size buffer)))) [
    | inl long ↦ absurd (ground (arith, h, large, long))
    | inr short ↦ ground (arith, short, length-drop max_sse_frame_size buffer)
  ]
]

module _ {V : Type 0} where
  -- What a decoder that held `before` bytes found, with the bytes that it keeps.
  abbrev pub IsWithinLimit : ℕ → Option (Decoded (SourceEvent V)) → ℕ → Type 0
  IsWithinLimit before none kept = kept ≤ frame_limit
  IsWithinLimit before (some (ok e)) kept = (e.source_bytes ≤ frame_limit) × (kept < before)
  IsWithinLimit before (some (err x)) kept = Unit

  pub more_before :
      (n m : ℕ) (found : Option (Decoded (SourceEvent V))) (kept : ℕ)
      → n ≤ m
      → IsWithinLimit n found kept
      → IsWithinLimit m found kept
  more_before n m none kept h w = w
  more_before n m (some (ok e)) kept h w = (w.0, omega (arith, w.1, h))
  more_before n m (some (err x)) kept h w = tt
