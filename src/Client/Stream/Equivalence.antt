-- ===== src/Client/Stream/Equivalence.antt =====
-- The event stream does not depend on where the decoder resumes its search (src/client.rs).
use mathlib.Core.Path.{subst}
use opencode_beacon.Prelude.{
  ℕ, zero, suc, ◌+◌, Bool, true, false, Option, List, [], ◌∷◌, ◌++◌, length, ◌≡◌, refl, ◌∙◌, ap,
  Bool-cases, Option-cases, inl, inr,
}
use opencode_beacon.Prelude.Chars.{Chars}
use opencode_beacon.Model.{WireEvent}
use opencode_beacon.Client.Parse.{ok, err}
use opencode_beacon.Client.Frames.{Decoder, Next, decode_loop, decode_next_frame}
use opencode_beacon.Client.Frames.Resumed.{
  IsResumed, start-IsResumed, feed-IsResumed, decode_same, decode-IsResumed,
}
use opencode_beacon.Client.Stream.{
  Chunk, received_bytes, transport_error, decoded, new_decoder, Drained, drain, drain_ready, stream,
  source_event_stream,
}

module _ {V : Type 0} (from_str : Chars → Option (WireEvent V)) where
  -- The decoder that always searches its whole buffer.
  unfoldable pub decode_afresh : Decoder → Bool → Next V
  unfolding decode_next_frame
  decode_afresh d a = decode_next_frame from_str (record d { search_from = 0 }) a

  -- The same buffer, with a search position that is sound.
  record Agree (d d' : Decoder) : Type 0 where
    pub same : d.buffer ≡ d'.buffer
    pub sound : IsResumed d.buffer d.search_from

  next-Agree :
      (d d' : Decoder) (a : Bool)
      → Agree d d'
      → ((decode_next_frame from_str d a).found ≡ (decode_afresh d' a).found)
        × Agree (decode_next_frame from_str d a).rest (decode_afresh d' a).rest
  unfolding decode_next_frame decode_afresh
  next-Agree d d' a g =
      let n = length d.buffer + 1 in
      let (found, buffer) = decode_same from_str n d.buffer d.search_from a g.sound in
      let moved = ap (λ b. decode_loop from_str (length b + 1) b 0 a) g.same in
      (
        found ∙ ap (λ r. r.found) moved,
        record {
          same = buffer ∙ ap (λ r. r.rest.buffer) moved;
          sound = decode-IsResumed from_str n d.buffer d.search_from a g.sound;
        },
      )

  record AgreeAfter (r r' : Drained V) : Type 0 where
    pub items : r.items ≡ r'.items
    pub failed : r.failed ≡ r'.failed
    pub decoders : Agree r.decoder r'.decoder

  drain-Agree :
      (n : ℕ) (d d' : Decoder) (a : Bool)
      → Agree d d'
      → AgreeAfter (drain (decode_next_frame from_str) n d a) (drain decode_afresh n d' a)
  unfolding drain
  drain-Agree zero d d' a g = record { items = refl; failed = refl; decoders = g }
  drain-Agree (suc n) d d' a g =
      let (found, next) = next-Agree d d' a g in
      elim (Option-cases (decode_afresh d' a).found) [
        | inl e ↦ rw (found, e, drain) (record { items = refl; failed = refl; decoders = next })
        | inr (err x, e) ↦
            rw (found, e, drain) (record { items = refl; failed = refl; decoders = next })
        | inr (ok x, e) ↦
            let rest =
              drain-Agree n (decode_next_frame from_str d a).rest (decode_afresh d' a).rest a
                next in
            rw (found, e, drain)
              (record {
                items = ap (λ xs. decoded (ok x) ∷ xs) rest.items;
                failed = rest.failed;
                decoders = rest.decoders;
              })
      ]

  ready-Agree :
      (d d' : Decoder) (a : Bool)
      → Agree d d'
      → AgreeAfter (drain_ready (decode_next_frame from_str) d a) (drain_ready decode_afresh d' a)
  unfolding drain_ready
  ready-Agree d d' a g =
      subst
        (λ n.
          AgreeAfter (drain (decode_next_frame from_str) (length d.buffer + 1) d a)
            (drain decode_afresh n d' a))
        (ap (λ b. length b + 1) g.same) (drain-Agree (length d.buffer + 1) d d' a g)

  stream-Agree :
      (chunks : List Chunk) (d d' : Decoder)
      → Agree d d'
      → stream (decode_next_frame from_str) chunks d ≡ stream decode_afresh chunks d'
  unfolding stream
  stream-Agree [] d d' g =
      let now = ready-Agree d d' false g in
      let last = ready-Agree _ _ true now.decoders in
      elim (Bool-cases (drain_ready decode_afresh d' false).failed) [
        | inl f ↦ rw (now.items, now.failed, f, stream) refl
        | inr f ↦ rw (now.items, now.failed, f, last.items, stream) refl
      ]
  stream-Agree (transport_error ∷ chunks) d d' g =
      let now = ready-Agree d d' false g in
      let last = ready-Agree _ _ true now.decoders in
      elim (Bool-cases (drain_ready decode_afresh d' false).failed) [
        | inl f ↦ rw (now.items, now.failed, f, stream) refl
        | inr f ↦ rw (now.items, now.failed, f, last.items, last.failed, stream) refl
      ]
  stream-Agree (received_bytes chunk ∷ chunks) d d' g =
      let now = ready-Agree d d' false g in
      let c = (drain_ready (decode_next_frame from_str) d false).decoder in
      let c' = (drain_ready decode_afresh d' false).decoder in
      let fed =
        stream-Agree chunks (record c { buffer = c.buffer ++ chunk })
          (record c' { buffer = c'.buffer ++ chunk })
          (record {
            same = ap (λ b. b ++ chunk) now.decoders.same;
            sound = feed-IsResumed c.buffer chunk c.search_from now.decoders.sound;
          }) in
      elim (Bool-cases (drain_ready decode_afresh d' false).failed) [
        | inl f ↦ rw (now.items, now.failed, f, stream) refl
        | inr f ↦
            rw (now.items, now.failed, f, stream)
              (ap (λ xs. (drain_ready decode_afresh d' false).items ++ xs) fed)
      ]

  -- Whatever chunks the bytes of a response come in, the stream yields what it would yield if each
  -- search for the end of a frame started at the beginning of the buffer.
  pub stream_resumes :
      (chunks : List Chunk)
      → source_event_stream from_str chunks ≡ stream decode_afresh chunks new_decoder
  unfolding source_event_stream
  stream_resumes chunks =
      stream-Agree chunks new_decoder new_decoder
        (record { same = refl; sound = start-IsResumed [] })
