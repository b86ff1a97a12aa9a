-- ===== src/Client/Stream/Errors.antt =====
-- An error ends the event stream (src/client.rs).
use opencode_beacon.Prelude.{
  ℕ, zero, suc, Bool, true, false, Option, List, [], ◌∷◌, ◌++◌, ◌≡◌, refl, arith, Bool-cases,
  Option-cases, inl, inr,
}
use opencode_beacon.Prelude.Chars.{Chars}
use opencode_beacon.Model.{WireEvent}
use opencode_beacon.Client.Parse.{ok, err}
use opencode_beacon.Client.Frames.{Decoder, Next, decode_next_frame}
use opencode_beacon.Client.Stream.{
  Chunk, received_bytes, transport_error, StreamItem, decoded, new_decoder, drain, drain_ready,
  stream, source_event_stream,
}

module _ {V : Type 0} where
  abbrev pub is_event : StreamItem V → Bool
  is_event (decoded (ok e)) = true
  is_event _ = false

  abbrev pub AllEvents : List (StreamItem V) → Type 0
  AllEvents [] = Unit
  AllEvents (x ∷ xs) = (is_event x ≡ true) × AllEvents xs

  -- Every item but the last is an event.
  abbrev pub EndsAtError : List (StreamItem V) → Type 0
  EndsAtError [] = Unit
  EndsAtError (x ∷ []) = Unit
  EndsAtError (x ∷ y ∷ xs) = (is_event x ≡ true) × EndsAtError (y ∷ xs)

  event-EndsAtError :
      (x : StreamItem V) (xs : List (StreamItem V))
      → is_event x ≡ true
      → EndsAtError xs
      → EndsAtError (x ∷ xs)
  event-EndsAtError x [] h t = tt
  event-EndsAtError x (y ∷ xs) h t = (h, t)

  append-EndsAtError :
      (xs ys : List (StreamItem V)) → AllEvents xs → EndsAtError ys → EndsAtError (xs ++ ys)
  append-EndsAtError [] ys h t = t
  append-EndsAtError (x ∷ xs) ys h t =
      event-EndsAtError x (xs ++ ys) h.0 (append-EndsAtError xs ys h.1 t)

  closed-EndsAtError : (xs : List (StreamItem V)) → EndsAtError xs → EndsAtError (xs ++ [])
  closed-EndsAtError [] t = tt
  closed-EndsAtError (x ∷ []) t = tt
  closed-EndsAtError (x ∷ y ∷ xs) t = (t.0, closed-EndsAtError (y ∷ xs) t.1)

  drain-EndsAtError :
      (next : Decoder → Bool → Next V) (n : ℕ) (d : Decoder) (a : Bool)
      → EndsAtError (drain next n d a).items
        × ((drain next n d a).failed ≡ false → AllEvents (drain next n d a).items)
  unfolding drain
  drain-EndsAtError next zero d a = (tt, λ h. tt)
  drain-EndsAtError next (suc n) d a = elim (Option-cases (next d a).found) [
    | inl e ↦ rw (e, drain) (tt, λ h. tt)
    | inr (err x, e) ↦ rw (e, drain) (tt, λ h. absurd (ground (arith, h)))
    | inr (ok x, e) ↦
        let rest = drain-EndsAtError next n (next d a).rest a in
        rw (e, drain)
          (
            event-EndsAtError (decoded (ok x)) (drain next n (next d a).rest a).items refl rest.0,
            λ h. (refl, rest.1 h),
          )
  ]

  ready-EndsAtError :
      (next : Decoder → Bool → Next V) (d : Decoder) (a : Bool)
      → EndsAtError (drain_ready next d a).items
        × ((drain_ready next d a).failed ≡ false → AllEvents (drain_ready next d a).items)
  unfolding drain_ready
  ready-EndsAtError next d a = drain-EndsAtError next _ d a

  stream-EndsAtError :
      (next : Decoder → Bool → Next V) (chunks : List Chunk) (d : Decoder)
      → EndsAtError (stream next chunks d)
  unfolding stream
  stream-EndsAtError next [] d =
      let now = ready-EndsAtError next d false in
      let last = ready-EndsAtError next (drain_ready next d false).decoder true in
      elim (Bool-cases (drain_ready next d false).failed) [
        | inl f ↦ rw (f, stream) (closed-EndsAtError _ now.0)
        | inr f ↦ rw (f, stream) (append-EndsAtError _ _ (now.1 f) last.0)
      ]
  stream-EndsAtError next (transport_error ∷ chunks) d =
      let now = ready-EndsAtError next d false in
      let last = ready-EndsAtError next (drain_ready next d false).decoder true in
      elim (Bool-cases (drain_ready next d false).failed) [
        | inl f ↦ rw (f, stream) (closed-EndsAtError _ now.0)
        | inr f ↦
            elim (Bool-cases (drain_ready next (drain_ready next d false).decoder true).failed) [
              | inl g ↦
                  rw (f, g, stream) (append-EndsAtError _ _ (now.1 f) (closed-EndsAtError _ last.0))
              | inr g ↦
                  rw (f, g, stream)
                    (append-EndsAtError _ _ (now.1 f) (append-EndsAtError _ _ (last.1 g) tt))
            ]
      ]
  stream-EndsAtError next (received_bytes chunk ∷ chunks) d =
      let now = ready-EndsAtError next d false in
      let d' = (drain_ready next d false).decoder in
      let rest = stream-EndsAtError next chunks (record d' { buffer = d'.buffer ++ chunk }) in
      elim (Bool-cases (drain_ready next d false).failed) [
        | inl f ↦ rw (f, stream) (closed-EndsAtError _ now.0)
        | inr f ↦ rw (f, stream) (append-EndsAtError _ _ (now.1 f) rest)
      ]

  -- Whatever a response brings, every item that the stream yields before the last one is an event:
  -- a frame that is too large, is not UTF-8 or holds no JSON event, or a failed transport, ends the
  -- stream, after the events that came before it.
  pub source_event_stream-EndsAtError :
      (from_str : Chars → Option (WireEvent V)) (chunks : List Chunk)
      → EndsAtError (source_event_stream from_str chunks)
  unfolding source_event_stream
  source_event_stream-EndsAtError from_str chunks =
      stream-EndsAtError (decode_next_frame from_str) chunks new_decoder
