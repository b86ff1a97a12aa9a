-- ===== src/Client/Frames.antt =====
-- The decoder of frames: `decode_next_frame` and what it calls (src/client.rs). The buffer is a list
-- of bytes; the loop runs on fuel.
pub mod Incremental
pub mod Resumed
pub mod Bounds
pub mod Ends
use opencode_beacon.Prelude.{
  ℕ, zero, suc, ◌+◌, ◌-◌, Bool, true, false, Option, none, some, List, [], ◌∷◌, ◌++◌, ◌&&◌, ◌||◌,
  not, eqb, leb, ltb, if◌then◌else◌, length, any, is_some,
}
use opencode_beacon.Prelude.Chars.{Chars, chars_eq}
use opencode_beacon.Model.{WireEvent}
use opencode_beacon.Monitor.Sink.{SourceEvent}
use opencode_beacon.Client.Parse.{
  cr, lf, ClientError, sse_frame_too_large, Decoded, ok, err, parse_frame,
}

unfoldable pub drop : {A : Type 0} → ℕ → List A → List A
drop n [] = []
drop n (x ∷ xs) = elim n [ zero ↦ x ∷ xs | suc m ↦ drop m xs ]

unfoldable pub take : {A : Type 0} → ℕ → List A → List A
take n [] = []
take n (x ∷ xs) = elim n [ zero ↦ [] | suc m ↦ x ∷ take m xs ]

abbrev pub max_sse_frame_size : ℕ
max_sse_frame_size = 1048576

abbrev pub max_sse_delimiter_prefix : ℕ
max_sse_delimiter_prefix = 3

unfoldable pub leading_line_ending_length : List ℕ → Bool → Option ℕ
leading_line_ending_length [] allow_trailing_cr = none
leading_line_ending_length (c ∷ []) allow_trailing_cr =
    if eqb c cr
    then (if allow_trailing_cr then some 1 else none)
    else if eqb c lf
    then some 1
    else none
leading_line_ending_length (c ∷ d ∷ bytes) allow_trailing_cr =
    if eqb c cr && eqb d lf then some 2 else if eqb c cr || eqb c lf then some 1 else none

unfoldable pub incomplete_frame_is_too_large : List ℕ → Bool
unfolding drop any chars_eq
incomplete_frame_is_too_large buffer =
    let suffix = drop max_sse_frame_size buffer in
    not (leb (length buffer) max_sse_frame_size)
    && (ltb max_sse_delimiter_prefix (length suffix)
        || not (
            any (chars_eq suffix) (
              (lf ∷ [])
              ∷ (cr ∷ [])
              ∷ (lf ∷ cr ∷ [])
              ∷ (cr ∷ cr ∷ [])
              ∷ (cr ∷ lf ∷ [])
              ∷ (cr ∷ lf ∷ cr ∷ [])
              ∷ [])))

-- What the loop of `frame_end_from` makes of a byte: no line ending, a wait for the byte after a
-- carriage return, or a line ending of one or two bytes.
pub data Ending : Type 0 where
  other waits one two : Ending

-- `ending_length`, from the byte, the next byte if there is one, and `previous_ending.is_some()`
unfoldable pub ending : ℕ → Option ℕ → Bool → Bool → Ending
ending c next previous allow_trailing_cr =
    if eqb c cr
    then (if previous then one else elim next [
      | some d ↦ if eqb d lf then two else one
      | none ↦ if allow_trailing_cr then one else waits
    ])
    else if eqb c lf
    then one
    else other

-- The loop of `frame_end_from`, on the bytes from `position` on.
unfoldable pub scan : List ℕ → ℕ → Option ℕ → Bool → Option (ℕ × ℕ)
unfolding ending
scan [] position previous allow = none
scan (c ∷ []) position previous allow = elim (ending c none (is_some previous) allow) [
  | other ↦ none
  | waits ↦ none
  | one ↦ elim previous [ none ↦ none | some p ↦ some (p, position + 1 - p) ]
  | two ↦ none
]
scan (c ∷ d ∷ bytes) position previous allow = elim (ending c (some d) (is_some previous) allow) [
  | other ↦ scan (d ∷ bytes) (position + 1) none allow
  | waits ↦ none
  | one ↦ elim previous [
    | none ↦ scan (d ∷ bytes) (position + 1) (some position) allow
    | some p ↦ some (p, position + 1 - p)
  ]
  | two ↦ elim previous [
    | none ↦ scan bytes (position + 2) (some position) allow
    | some p ↦ some (p, position + 2 - p)
  ]
]

unfoldable pub frame_end_from : List ℕ → ℕ → Bool → Option (ℕ × ℕ)
unfolding drop scan
frame_end_from buffer start allow = scan (drop start buffer) start none allow

pub record Decoder : Type 0 where
  pub buffer : List ℕ
  pub search_from : ℕ

pub record Next (V : Type 0) : Type 0 where
  pub found : Option (Decoded (SourceEvent V))
  pub rest : Decoder

module _ {V : Type 0} (from_str : Chars → Option (WireEvent V)) where
  -- The result of `decode_next_frame` when its buffer is drained of `n` bytes.
  abbrev drained : ℕ → List ℕ → Option (Decoded (SourceEvent V)) → Next V
  drained n buffer found = record {
    found = found;
    rest = record { buffer = drop n buffer; search_from = 0 };
  }

  unfoldable pub decode_loop : ℕ → List ℕ → ℕ → Bool → Next V
  unfolding leading_line_ending_length frame_end_from incomplete_frame_is_too_large parse_frame drop
      take
  decode_loop zero buffer search_from end_of_stream = record {
    found = none;
    rest = record { buffer = buffer; search_from = search_from };
  }
  decode_loop (suc fuel) buffer search_from end_of_stream =
      elim (leading_line_ending_length buffer end_of_stream) [
        | some n ↦ decode_loop fuel (drop n buffer) 0 end_of_stream
        | none ↦ elim (frame_end_from buffer search_from end_of_stream) [
          | none ↦ elim (incomplete_frame_is_too_large buffer) [
            | true ↦ record {
              found = some (err sse_frame_too_large);
              rest = record { buffer = buffer; search_from = search_from };
            }
            | false ↦ record {
              found = none;
              rest = record { buffer = buffer; search_from = length buffer - 3 };
            }
          ]
          | some frame ↦
              let source_bytes = frame.0 + frame.1 in
              elim (leb frame.0 max_sse_frame_size) [
                | false ↦ drained source_bytes buffer (some (err sse_frame_too_large))
                | true ↦ elim (parse_frame from_str (take frame.0 buffer)) [
                  | err e ↦ drained source_bytes buffer (some (err e))
                  | ok event ↦ elim event [
                    | none ↦ decode_loop fuel (drop source_bytes buffer) 0 end_of_stream
                    | some e ↦
                        drained source_bytes buffer
                          (some (ok (record { event = e; source_bytes = source_bytes })))
                  ]
                ]
              ]
        ]
      ]

  -- `decode_next_frame`; each round but the last removes a byte or more.
  unfoldable pub decode_next_frame : Decoder → Bool → Next V
  unfolding decode_loop
  decode_next_frame d end_of_stream =
      decode_loop (length d.buffer + 1) d.buffer d.search_from end_of_stream
