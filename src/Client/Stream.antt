-- ===== src/Client/Stream.antt =====
-- The event stream, `source_event_stream_at` (src/client.rs), once its response is accepted: chunks
-- of bytes come in, items go out.
pub mod Equivalence
pub mod Ready
pub mod Errors
use opencode_beacon.Prelude.{
  ℕ, zero, suc, ◌+◌, Bool, true, false, Option, none, some, List, [], ◌∷◌, ◌++◌, length,
}
use opencode_beacon.Prelude.Chars.{Chars}
use opencode_beacon.Model.{WireEvent}
use opencode_beacon.Monitor.Sink.{SourceEvent}
use opencode_beacon.Client.Parse.{Decoded, ok, err}
use opencode_beacon.Client.Frames.{Decoder, Next, decode_next_frame}

-- What `bytes.next()` answers; the body ends after the last one.
pub data Chunk : Type 0 where
  received_bytes : List ℕ → Chunk
  transport_error : Chunk

pub data StreamItem (V : Type 0) : Type 0 where
  decoded : Decoded (SourceEvent V) → StreamItem V
  transport_failed : StreamItem V

abbrev pub new_decoder : Decoder
new_decoder = record { buffer = []; search_from = 0 }

pub record Drained (V : Type 0) : Type 0 where
  pub items : List (StreamItem V)
  pub decoder : Decoder
  pub failed : Bool

module _ {V : Type 0} where
  -- The events that are ready, up to an error; `next` is `decode_next_frame`.
  unfoldable pub drain : (Decoder → Bool → Next V) → ℕ → Decoder → Bool → Drained V
  drain next zero d end_of_stream = record { items = []; decoder = d; failed = false }
  drain next (suc fuel) d end_of_stream =
      let r = next d end_of_stream in
      elim r.found [
        | none ↦ record { items = []; decoder = r.rest; failed = false }
        | some result ↦ elim result [
          | err e ↦ record { items = decoded (err e) ∷ []; decoder = r.rest; failed = true }
          | ok event ↦
              let rest = drain next fuel r.rest end_of_stream in
              record {
                items = decoded (ok event) ∷ rest.items;
                decoder = rest.decoder;
                failed = rest.failed;
              }
        ]
      ]

  -- Each event that is yielded removes a byte or more from the buffer.
  unfoldable pub drain_ready : (Decoder → Bool → Next V) → Decoder → Bool → Drained V
  unfolding drain
  drain_ready next d end_of_stream = drain next (length d.buffer + 1) d end_of_stream

  unfoldable pub stream : (Decoder → Bool → Next V) → List Chunk → Decoder → List (StreamItem V)
  unfolding drain_ready
  stream next [] d =
      let now = drain_ready next d false in
      now.items ++ elim now.failed [ true ↦ [] | false ↦ (drain_ready next now.decoder true).items ]
  stream next (transport_error ∷ chunks) d =
      let now = drain_ready next d false in
      now.items ++ elim now.failed [
        | true ↦ []
        | false ↦
            let last = drain_ready next now.decoder true in
            last.items ++ elim last.failed [ true ↦ [] | false ↦ transport_failed ∷ [] ]
      ]
  stream next (received_bytes chunk ∷ chunks) d =
      let now = drain_ready next d false in
      now.items ++ elim now.failed [
        | true ↦ []
        | false ↦ stream next chunks (record now.decoder { buffer = now.decoder.buffer ++ chunk })
      ]

  unfoldable pub source_event_stream :
      (Chars → Option (WireEvent V)) → List Chunk → List (StreamItem V)
  unfolding stream decode_next_frame
  source_event_stream from_str chunks = stream (decode_next_frame from_str) chunks new_decoder
