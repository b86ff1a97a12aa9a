-- ===== src/Client/Stream/Ready.antt =====
-- The event stream yields every event that is ready before it waits for more bytes (src/client.rs).
use mathlib.Core.Path.{subst}
use opencode_beacon.Prelude.{
  ℕ, zero, suc, ◌+◌, ◌<◌, Bool, true, false, Option, none, some, [], ◌∷◌, length, ◌≡◌, arith,
  Option-cases, inl, inr,
}
use opencode_beacon.Prelude.Chars.{Chars}
use opencode_beacon.Model.{WireEvent}
use opencode_beacon.Monitor.Sink.{SourceEvent}
use opencode_beacon.Client.Parse.{ClientError, ok, err}
use opencode_beacon.Client.Frames.{Decoder, decode_next_frame}
use opencode_beacon.Client.Frames.Bounds.{IsWithinLimit}
use opencode_beacon.Client.Frames.Ends.{decode_bounded}
use opencode_beacon.Client.Stream.{Drained, decoded, drain, drain_ready}

-- The loop of the stream until it waits for bytes or has failed, as a relation: calls of the decoder,
-- one after the other, of which each but the last yields an event.
pub data Yields {V : Type 0} (from_str : Chars → Option (WireEvent V)) (a : Bool)
    : Decoder → Drained V → Type 0 where
  pauses :
      (d : Decoder)
      → (decode_next_frame from_str d a).found ≡ none
      → Yields from_str a d
          (record { items = []; decoder = (decode_next_frame from_str d a).rest; failed = false })
  fails :
      (d : Decoder) (e : ClientError)
      → (decode_next_frame from_str d a).found ≡ some (err e)
      → Yields from_str a d (record {
        items = decoded (err e) ∷ [];
        decoder = (decode_next_frame from_str d a).rest;
        failed = true;
      })
  yields :
      (d : Decoder) (event : SourceEvent V) (r : Drained V)
      → (decode_next_frame from_str d a).found ≡ some (ok event)
      → Yields from_str a (decode_next_frame from_str d a).rest r
      → Yields from_str a d (record r { items = decoded (ok event) ∷ r.items })

module _ {V : Type 0} (from_str : Chars → Option (WireEvent V)) (a : Bool) where
  drain-Yields :
      (n : ℕ) (d : Decoder)
      → length d.buffer < n
      → Yields from_str a d (drain (decode_next_frame from_str) n d a)
  unfolding drain
  drain-Yields zero d h = absurd (omega (arith, h))
  drain-Yields (suc n) d h =
      let next = decode_next_frame from_str d a in
      elim (Option-cases (decode_next_frame from_str d a).found) [
        | inl e ↦ rw (e, drain) (pauses d e)
        | inr (err x, e) ↦ rw (e, drain) (fails d x e)
        | inr (ok x, e) ↦
            let less =
              subst (λ f. IsWithinLimit (length d.buffer) f (length next.rest.buffer)) e
                (decode_bounded from_str d a) in
            rw (e, drain)
              (yields d x (drain (decode_next_frame from_str) n next.rest a) e
                (drain-Yields n next.rest (omega (arith, h, less.1))))
      ]

  -- The loop of the stream always comes to an end between two chunks: it stops when the decoder has
  -- nothing more to yield, or at its first error, and never for want of rounds.
  pub ready-Yields :
      (d : Decoder) → Yields from_str a d (drain_ready (decode_next_frame from_str) d a)
  unfolding drain_ready
  ready-Yields d = drain-Yields (length d.buffer + 1) d (omega arith)
