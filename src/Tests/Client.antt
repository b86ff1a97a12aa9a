-- ===== src/Tests/Client.antt =====
-- The event stream on chunks that cut its frames.
use opencode_beacon.Prelude.{
  ℕ, Bool, true, false, Option, none, some, List, [], ◌∷◌, ◌++◌, if◌then◌else◌, length, ◌≡◌, refl,
  arith, any,
}
use opencode_beacon.Prelude.Chars.{Chars, chars_eq}
use opencode_beacon.Prelude.Order.{codes}
use opencode_beacon.Model.{WireEvent}
use opencode_beacon.Client.Parse.{cr, lf, ok, err, utf8, parse_frame, is_utf8, join_lines}
use opencode_beacon.Client.Parse.Print.{
  LineEnd, cr_end, crlf_end, print_frame, texts, IsLine, AreLines, decoded_text, parse-print_frame,
}
use opencode_beacon.Client.Frames.{Decoder, decode_loop, decode_next_frame}
use opencode_beacon.Client.Frames.Bounds.{IsWithinLimit}
use opencode_beacon.Client.Frames.Ends.{Decodes, decode_terminates, decode_bounded}
use opencode_beacon.Client.Stream.{
  Chunk, received_bytes, transport_error, StreamItem, decoded, new_decoder, stream, drain_ready,
  source_event_stream,
}
use opencode_beacon.Client.Stream.Equivalence.{decode_afresh, stream_resumes}
use opencode_beacon.Client.Stream.Ready.{Yields, ready-Yields}
use opencode_beacon.Client.Stream.Errors.{EndsAtError, source_event_stream-EndsAtError}

-- One event, with the text `{}`.
abbrev created : WireEvent Bool
created = record { kind = "server.connected"; properties = true }

abbrev from_str : Chars → Option (WireEvent Bool)
from_str text = if chars_eq text (codes "{}") then some created else none

abbrev first : List ℕ
first = codes "data: {}" ++ (cr ∷ [])

abbrev second : List ℕ
second = lf ∷ lf ∷ (codes ": ping" ++ (lf ∷ lf ∷ codes "data: {}"))

abbrev third : List ℕ
third = lf ∷ cr ∷ (255 ∷ lf ∷ lf ∷ codes "data: {}")

abbrev chunks : List Chunk
chunks = received_bytes first ∷ received_bytes second ∷ received_bytes third ∷ transport_error ∷ []

abbrev event_of : ℕ → StreamItem Bool
event_of n = decoded (ok (record { event = created; source_bytes = n }))

-- Two events, with a comment between them, and then bytes that are not UTF-8.
stream_run :
    source_event_stream from_str chunks ≡ event_of 11 ∷ event_of 10 ∷ decoded (err utf8) ∷ []
unfolding source_event_stream
stream_run = refl

stream_resumes_example :
    source_event_stream from_str chunks ≡ stream (decode_afresh from_str) chunks new_decoder
stream_resumes_example = stream_resumes from_str chunks

source_event_stream-EndsAtError_example : EndsAtError (source_event_stream from_str chunks)
source_event_stream-EndsAtError_example = source_event_stream-EndsAtError from_str chunks

abbrev holding : Decoder
holding = record { buffer = lf ∷ (codes "data: {}" ++ (lf ∷ lf ∷ codes "data")); search_from = 0 }

decode_terminates_example :
    Decodes from_str false holding.buffer holding.search_from
      (decode_next_frame from_str holding false)
    × (decode_loop from_str 40 holding.buffer holding.search_from false
        ≡ decode_next_frame from_str holding false)
decode_terminates_example = decode_terminates from_str 40 holding false (omega arith)

decode_bounded_example :
    IsWithinLimit
      (length holding.buffer)
      (decode_next_frame from_str holding false).found
      (length (decode_next_frame from_str holding false).rest.buffer)
decode_bounded_example = decode_bounded from_str holding false

ready-Yields_example :
    Yields from_str false holding (drain_ready (decode_next_frame from_str) holding false)
ready-Yields_example = ready-Yields from_str false holding

abbrev brace : Chars
brace = codes "{"

abbrev rest_of_text : List (LineEnd × Chars)
rest_of_text = (crlf_end, codes "1") ∷ (cr_end, codes "}") ∷ []

abbrev any_str : Chars → Option (WireEvent Bool)
any_str text =
    if chars_eq text (codes "{" ++ (lf ∷ codes "1") ++ (lf ∷ codes "}")) then some created else none

brace_lines : IsLine brace × AreLines rest_of_text
unfolding any
brace_lines = ((refl, refl), (((refl, refl), (((refl, refl), tt)))))

brace_utf8 : is_utf8 (print_frame brace rest_of_text) ≡ true
unfolding is_utf8 print_frame
brace_utf8 = refl

parse-print_frame_example :
    parse_frame any_str (print_frame brace rest_of_text)
    ≡ decoded_text any_str (join_lines (brace ∷ texts rest_of_text))
parse-print_frame_example =
    parse-print_frame any_str brace rest_of_text brace_lines.0 brace_lines.1 brace_utf8

brace_run : parse_frame any_str (print_frame brace rest_of_text) ≡ ok (some created)
unfolding parse_frame print_frame
brace_run = refl
