-- ===== src/Client/Frames/Ends.antt =====
-- `decode_next_frame` ends, and each call stays within its limits (src/client.rs).
use opencode_beacon.Prelude.{
  ℕ, zero, suc, ◌+◌, ◌<◌, Bool, Option, none, some, true, false, ◌-◌, List, leb, length, ◌≡◌, refl,
  arith, Bool-cases, Option-cases, inl, inr,
}
use opencode_beacon.Prelude.Chars.{Chars}
use opencode_beacon.Model.{WireEvent}
use opencode_beacon.Client.Parse.{
  parse_frame, failed, silent, spoke, parse_cases, Decoded, ok, err, ClientError,
  sse_frame_too_large,
}
use opencode_beacon.Monitor.Sink.{SourceEvent}
use opencode_beacon.Client.Frames.{
  Next, drop, take, leading_line_ending_length, incomplete_frame_is_too_large, frame_end_from,
  Decoder, decode_loop, decode_next_frame, max_sse_frame_size,
}
use opencode_beacon.Client.Frames.Bounds.{
  leading-positive, frame_end_from-IsFrame, shorter, incomplete_bounded, frame_bounded,
  IsWithinLimit, more_before,
}

-- The bytes of the frame and of its delimiter are drained.
abbrev pub after_frame : {V : Type 0} → ℕ × ℕ → List ℕ → Option (Decoded (SourceEvent V)) → Next V
after_frame frame buffer found = record {
  found = found;
  rest = record { buffer = drop (frame.0 + frame.1) buffer; search_from = 0 };
}

-- The loop of `decode_next_frame` as a relation, from a buffer and a search position to the result.
-- A derivation is a finite sequence of rounds, so a buffer on which the loop never ends has none.
pub data Decodes {V : Type 0} (from_str : Chars → Option (WireEvent V)) (a : Bool)
    : List ℕ → ℕ → Next V → Type 0 where
  -- A line ending in front of a frame is drained.
  skips :
      {buffer : List ℕ} {search_from : ℕ} {r : Next V} (l : ℕ)
      → leading_line_ending_length buffer a ≡ some l
      → Decodes from_str a (drop l buffer) 0 r
      → Decodes from_str a buffer search_from r
  -- A frame without an event is drained.
  ignores :
      {buffer : List ℕ} {search_from : ℕ} {r : Next V} (frame : ℕ × ℕ)
      → leading_line_ending_length buffer a ≡ none
      → frame_end_from buffer search_from a ≡ some frame
      → leb frame.0 max_sse_frame_size ≡ true
      → parse_frame from_str (take frame.0 buffer) ≡ ok none
      → Decodes from_str a (drop (frame.0 + frame.1) buffer) 0 r
      → Decodes from_str a buffer search_from r
  overflows :
      {buffer : List ℕ} {search_from : ℕ}
      → leading_line_ending_length buffer a ≡ none
      → frame_end_from buffer search_from a ≡ none
      → incomplete_frame_is_too_large buffer ≡ true
      → Decodes from_str a buffer search_from (record {
        found = some (err sse_frame_too_large);
        rest = record { buffer = buffer; search_from = search_from };
      })
  waits :
      {buffer : List ℕ} {search_from : ℕ}
      → leading_line_ending_length buffer a ≡ none
      → frame_end_from buffer search_from a ≡ none
      → incomplete_frame_is_too_large buffer ≡ false
      → Decodes from_str a buffer search_from (record {
        found = none;
        rest = record { buffer = buffer; search_from = length buffer - 3 };
      })
  rejects :
      {buffer : List ℕ} {search_from : ℕ} (frame : ℕ × ℕ)
      → leading_line_ending_length buffer a ≡ none
      → frame_end_from buffer search_from a ≡ some frame
      → leb frame.0 max_sse_frame_size ≡ false
      → Decodes from_str a buffer search_from
          (after_frame frame buffer (some (err sse_frame_too_large)))
  fails :
      {buffer : List ℕ} {search_from : ℕ} (frame : ℕ × ℕ) (e : ClientError)
      → leading_line_ending_length buffer a ≡ none
      → frame_end_from buffer search_from a ≡ some frame
      → leb frame.0 max_sse_frame_size ≡ true
      → parse_frame from_str (take frame.0 buffer) ≡ err e
      → Decodes from_str a buffer search_from (after_frame frame buffer (some (err e)))
  yields :
      {buffer : List ℕ} {search_from : ℕ} (frame : ℕ × ℕ) (event : WireEvent V)
      → leading_line_ending_length buffer a ≡ none
      → frame_end_from buffer search_from a ≡ some frame
      → leb frame.0 max_sse_frame_size ≡ true
      → parse_frame from_str (take frame.0 buffer) ≡ ok (some event)
      → Decodes from_str a buffer search_from (
          after_frame frame buffer
            (some (ok (record { event = event; source_bytes = frame.0 + frame.1 }))))

module _ {V : Type 0} (from_str : Chars → Option (WireEvent V)) where
  -- The rounds left over change nothing.
  decode_enough :
      (n m : ℕ) (buffer : List ℕ) (search_from : ℕ) (a : Bool)
      → length buffer < n
      → length buffer < m
      → decode_loop from_str n buffer search_from a ≡ decode_loop from_str m buffer search_from a
  unfolding decode_loop
  decode_enough zero m buffer search_from a h k = absurd (omega (arith, h))
  decode_enough (suc n) zero buffer search_from a h k = absurd (omega (arith, k))
  decode_enough (suc n) (suc m) buffer search_from a h k =
      elim (Option-cases (leading_line_ending_length buffer a)) [
        | inr (l, e) ↦
            let (some_ending, some_bytes) = leading-positive buffer a l e in
            let less = shorter l buffer some_ending some_bytes in
            rw (e, decode_loop)
              (decode_enough n m (drop l buffer) 0 a (omega (arith, h, less))
                (omega (arith, k, less)))
        | inl e ↦ elim (Option-cases (frame_end_from buffer search_from a)) [
          | inl f ↦ rw (e, f, decode_loop) refl
          | inr (frame, f) ↦
              let left = drop (frame.0 + frame.1) buffer in
              let (is_frame, some_bytes) = frame_end_from-IsFrame buffer search_from a frame f in
              let less =
                shorter (frame.0 + frame.1) buffer (omega (arith, is_frame.long)) some_bytes in
              elim (Bool-cases (leb frame.0 max_sse_frame_size)) [
                | inr large ↦ rw (e, f, large, decode_loop) refl
                | inl small ↦ elim (parse_cases (parse_frame from_str (take frame.0 buffer))) [
                  | failed x g ↦ rw (e, f, small, g, decode_loop) refl
                  | spoke x g ↦ rw (e, f, small, g, decode_loop) refl
                  | silent g ↦
                      rw (e, f, small, g, decode_loop)
                        (decode_enough n m left 0 a (omega (arith, h, less))
                          (omega (arith, k, less)))
                ]
              ]
        ]
      ]

  loop-IsWithinLimit :
      (n : ℕ) (buffer : List ℕ) (search_from : ℕ) (a : Bool)
      → length buffer < n
      → IsWithinLimit
          (length buffer)
          (decode_loop from_str n buffer search_from a).found
          (length (decode_loop from_str n buffer search_from a).rest.buffer)
  unfolding decode_loop
  loop-IsWithinLimit zero buffer search_from a h = absurd (omega (arith, h))
  loop-IsWithinLimit (suc n) buffer search_from a h =
      elim (Option-cases (leading_line_ending_length buffer a)) [
        | inr (l, e) ↦
            let (some_ending, some_bytes) = leading-positive buffer a l e in
            let less = shorter l buffer some_ending some_bytes in
            rw (e, decode_loop)
              (more_before (length (drop l buffer)) (length buffer) _ _ (omega (arith, less))
                (loop-IsWithinLimit n (drop l buffer) 0 a (omega (arith, h, less))))
        | inl e ↦ elim (Option-cases (frame_end_from buffer search_from a)) [
          | inl f ↦ elim (Bool-cases (incomplete_frame_is_too_large buffer)) [
            | inl large ↦ rw (e, f, large, decode_loop) tt
            | inr small ↦ rw (e, f, small, decode_loop) (incomplete_bounded buffer small)
          ]
          | inr (frame, f) ↦
              let left = drop (frame.0 + frame.1) buffer in
              let (is_frame, some_bytes) = frame_end_from-IsFrame buffer search_from a frame f in
              let less =
                shorter (frame.0 + frame.1) buffer (omega (arith, is_frame.long)) some_bytes in
              elim (Bool-cases (leb frame.0 max_sse_frame_size)) [
                | inr large ↦ rw (e, f, large, decode_loop) tt
                | inl small ↦ elim (parse_cases (parse_frame from_str (take frame.0 buffer))) [
                  | failed x g ↦ rw (e, f, small, g, decode_loop) tt
                  | spoke x g ↦
                      rw (e, f, small, g, decode_loop)
                        (frame_bounded frame.0 frame.1 small is_frame.short, less)
                  | silent g ↦
                      rw (e, f, small, g, decode_loop)
                        (more_before (length left) (length buffer) _ _ (omega (arith, less))
                          (loop-IsWithinLimit n left 0 a (omega (arith, h, less))))
                ]
              ]
        ]
      ]

  loop-Decodes :
      (n : ℕ) (buffer : List ℕ) (search_from : ℕ) (a : Bool)
      → length buffer < n
      → Decodes from_str a buffer search_from (decode_loop from_str n buffer search_from a)
  unfolding decode_loop
  loop-Decodes zero buffer search_from a h = absurd (omega (arith, h))
  loop-Decodes (suc n) buffer search_from a h =
      elim (Option-cases (leading_line_ending_length buffer a)) [
        | inr (l, e) ↦
            let (some_ending, some_bytes) = leading-positive buffer a l e in
            let less = shorter l buffer some_ending some_bytes in
            rw (e, decode_loop)
              (skips l e (loop-Decodes n (drop l buffer) 0 a (omega (arith, h, less))))
        | inl e ↦ elim (Option-cases (frame_end_from buffer search_from a)) [
          | inl f ↦ elim (Bool-cases (incomplete_frame_is_too_large buffer)) [
            | inl large ↦ rw (e, f, large, decode_loop) (overflows e f large)
            | inr small ↦ rw (e, f, small, decode_loop) (waits e f small)
          ]
          | inr (frame, f) ↦
              let left = drop (frame.0 + frame.1) buffer in
              let (is_frame, some_bytes) = frame_end_from-IsFrame buffer search_from a frame f in
              let less =
                shorter (frame.0 + frame.1) buffer (omega (arith, is_frame.long)) some_bytes in
              elim (Bool-cases (leb frame.0 max_sse_frame_size)) [
                | inr large ↦ rw (e, f, large, decode_loop) (rejects frame e f large)
                | inl small ↦ elim (parse_cases (parse_frame from_str (take frame.0 buffer))) [
                  | failed x g ↦ rw (e, f, small, g, decode_loop) (fails frame x e f small g)
                  | spoke x g ↦ rw (e, f, small, g, decode_loop) (yields frame x e f small g)
                  | silent g ↦
                      rw (e, f, small, g, decode_loop)
                        (ignores frame e f small g
                          (loop-Decodes n left 0 a (omega (arith, h, less))))
                ]
              ]
        ]
      ]

  -- Each call of the decoder ends: finitely many rounds, each of which but the last drains the line
  -- ending or the frame that it found, lead from its buffer to its result. The number of rounds that
  -- the loop is given does not matter, once it is above the length of the buffer.
  pub decode_terminates :
      (n : ℕ) (d : Decoder) (a : Bool)
      → length d.buffer < n
      → Decodes from_str a d.buffer d.search_from (decode_next_frame from_str d a)
        × (decode_loop from_str n d.buffer d.search_from a ≡ decode_next_frame from_str d a)
  unfolding decode_next_frame
  decode_terminates n d a h = (
    loop-Decodes (length d.buffer + 1) d.buffer d.search_from a (omega arith),
    decode_enough n (length d.buffer + 1) d.buffer d.search_from a h (omega arith),
  )

  -- An event that the decoder yields comes from at most 1 MiB and 3 bytes, and leaves fewer bytes than
  -- there were; when the decoder waits for more bytes, it keeps at most 1 MiB and 3 bytes.
  pub decode_bounded :
      (d : Decoder) (a : Bool)
      → IsWithinLimit
          (length d.buffer)
          (decode_next_frame from_str d a).found
          (length (decode_next_frame from_str d a).rest.buffer)
  unfolding decode_next_frame
  decode_bounded d a =
      loop-IsWithinLimit (length d.buffer + 1) d.buffer d.search_from a (omega arith)
