-- ===== src/Client/Frames/Resumed.antt =====
-- A decoder that resumes its search decodes what one that searches from the start of its buffer
-- decodes (src/client.rs).
use mathlib.Core.List.{append_assoc, append-nil}
use opencode_beacon.Prelude.{
  ℕ, zero, suc, ◌+◌, ◌-◌, Bool, false, Option, none, List, [], ◌++◌, leb, length, ◌≡◌, refl, sym,
  ◌∙◌, ap, arith, Bool-cases, Option-cases, inl, inr,
}
use opencode_beacon.Prelude.Chars.{Chars}
use opencode_beacon.Model.{WireEvent}
use opencode_beacon.Client.Parse.{parse_frame, failed, silent, spoke, parse_cases}
use opencode_beacon.Client.Frames.{
  drop, take, leading_line_ending_length, incomplete_frame_is_too_large, frame_end_from,
  decode_loop, scan, max_sse_frame_size,
}
use opencode_beacon.Client.Frames.Incremental.{search_resumes, scan-allow}

-- The search starts three bytes before the end of bytes that have no end of a frame in them.
pub record IsResumed (buffer : List ℕ) (search_from : ℕ) : Type 0 where
  pub prefix : List ℕ
  pub more : List ℕ
  pub parts : buffer ≡ prefix ++ more
  pub at : search_from ≡ length prefix - 3
  pub unfound : frame_end_from prefix 0 false ≡ none

pub start-IsResumed : (buffer : List ℕ) → IsResumed buffer 0
unfolding frame_end_from scan drop
start-IsResumed buffer = record {
  prefix = [];
  more = buffer;
  parts = refl;
  at = omega arith;
  unfound = refl;
}

pub feed-IsResumed :
    (buffer chunk : List ℕ) (search_from : ℕ)
    → IsResumed buffer search_from
    → IsResumed (buffer ++ chunk) search_from
feed-IsResumed buffer chunk search_from r = record {
  prefix = r.prefix;
  more = r.more ++ chunk;
  parts = ap (λ xs. xs ++ chunk) r.parts ∙ append_assoc r.prefix r.more chunk;
  at = r.at;
  unfound = r.unfound;
}

same_frame :
    (buffer : List ℕ) (search_from : ℕ) (a : Bool)
    → IsResumed buffer search_from
    → frame_end_from buffer search_from a ≡ frame_end_from buffer 0 a
same_frame buffer search_from a r =
    ap (λ xs. frame_end_from xs search_from a) r.parts
    ∙ ap (λ n. frame_end_from (r.prefix ++ r.more) n a) r.at
    ∙ search_resumes r.prefix r.more a r.unfound
    ∙ ap (λ xs. frame_end_from xs 0 a) (sym r.parts)

frame-allow :
    (buffer : List ℕ) (a : Bool) → frame_end_from buffer 0 a ≡ frame_end_from buffer 0 false
unfolding frame_end_from
frame-allow buffer a = scan-allow (drop 0 buffer) 0 none a

-- After a search that finds nothing.
stop-IsResumed :
    (buffer : List ℕ) (search_from : ℕ) (a : Bool)
    → IsResumed buffer search_from
    → frame_end_from buffer search_from a ≡ none
    → IsResumed buffer (length buffer - 3)
stop-IsResumed buffer search_from a r h = record {
  prefix = buffer;
  more = [];
  parts = sym (append-nil buffer);
  at = refl;
  unfound = sym (frame-allow buffer a) ∙ sym (same_frame buffer search_from a r) ∙ h;
}

module _ {V : Type 0} (from_str : Chars → Option (WireEvent V)) where
  pub decode_same :
      (n : ℕ) (buffer : List ℕ) (search_from : ℕ) (a : Bool)
      → IsResumed buffer search_from
      → ((decode_loop from_str n buffer search_from a).found
          ≡ (decode_loop from_str n buffer 0 a).found)
        × ((decode_loop from_str n buffer search_from a).rest.buffer
            ≡ (decode_loop from_str n buffer 0 a).rest.buffer)
  unfolding decode_loop
  decode_same zero buffer search_from a r = (refl, refl)
  decode_same (suc n) buffer search_from a r =
      elim (Option-cases (leading_line_ending_length buffer a)) [
        | inr (k, e) ↦ rw (e, decode_loop) (refl, refl)
        | inl e ↦
            let same = same_frame buffer search_from a r in
            elim (Option-cases (frame_end_from buffer 0 a)) [
              | inl f ↦ elim (Bool-cases (incomplete_frame_is_too_large buffer)) [
                | inl large ↦ rw (e, same, f, large, decode_loop) (refl, refl)
                | inr small ↦ rw (e, same, f, small, decode_loop) (refl, refl)
              ]
              | inr (frame, f) ↦ rw (e, same, f, decode_loop) (refl, refl)
            ]
      ]

  pub decode-IsResumed :
      (n : ℕ) (buffer : List ℕ) (search_from : ℕ) (a : Bool)
      → IsResumed buffer search_from
      → IsResumed
          (decode_loop from_str n buffer search_from a).rest.buffer
          (decode_loop from_str n buffer search_from a).rest.search_from
  unfolding decode_loop
  decode-IsResumed zero buffer search_from a r = r
  decode-IsResumed (suc n) buffer search_from a r =
      elim (Option-cases (leading_line_ending_length buffer a)) [
        | inr (k, e) ↦
            rw (e, decode_loop)
              (decode-IsResumed n (drop k buffer) 0 a (start-IsResumed (drop k buffer)))
        | inl e ↦ elim (Option-cases (frame_end_from buffer search_from a)) [
          | inl f ↦ elim (Bool-cases (incomplete_frame_is_too_large buffer)) [
            | inl large ↦ rw (e, f, large, decode_loop) r
            | inr small ↦ rw (e, f, small, decode_loop) (stop-IsResumed buffer search_from a r f)
          ]
          | inr (frame, f) ↦
              let left = drop (frame.0 + frame.1) buffer in
              elim (Bool-cases (leb frame.0 max_sse_frame_size)) [
                | inr large ↦ rw (e, f, large, decode_loop) (start-IsResumed left)
                | inl small ↦ elim (parse_cases (parse_frame from_str (take frame.0 buffer))) [
                  | failed x g ↦ rw (e, f, small, g, decode_loop) (start-IsResumed left)
                  | spoke x g ↦ rw (e, f, small, g, decode_loop) (start-IsResumed left)
                  | silent g ↦
                      rw (e, f, small, g, decode_loop)
                        (decode-IsResumed n left 0 a (start-IsResumed left))
                ]
              ]
        ]
      ]
