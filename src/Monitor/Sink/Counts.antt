-- ===== src/Monitor/Sink/Counts.antt =====
-- How many of the events that are to be sent arrive (src/monitor.rs).
use mathlib.Core.List.{append_assoc, append-nil}
use opencode_beacon.Prelude.{
  ℕ, zero, suc, ◌+◌, ◌≤◌, Bool, true, false, List, [], ◌∷◌, ◌++◌, count, count-append, ◌≡◌, refl,
  arith, sym, ap, ◌∙◌,
}
use opencode_beacon.Events.{BeaconEvent}
use opencode_beacon.Monitor.Sink.{EventSink, send_all}

abbrev pub take {ℓ} : {A : Type ℓ} → ℕ → List A → List A
take zero xs = []
take (suc n) [] = []
take (suc n) (x ∷ xs) = x ∷ take n xs

send_room :
    (es : List BeaconEvent) (r : ℕ) (xs : List BeaconEvent)
    → (send_all es (record { room = r; sent = xs })).0.sent ≡ xs ++ take r es
unfolding send_all
send_room [] zero xs = sym (append-nil xs)
send_room [] (suc r) xs = sym (append-nil xs)
send_room (e ∷ es) zero xs = sym (append-nil xs)
send_room (e ∷ es) (suc r) xs =
    rw (send_room es r (xs ++ (e ∷ [])), append_assoc xs (e ∷ []) (take r es)) refl

-- The events that arrive are the first ones, as many as the receiver still takes.
pub send_all-sent :
    (es : List BeaconEvent) (k : EventSink) → (send_all es k).0.sent ≡ k.sent ++ take k.room es
send_all-sent es k = send_room es k.room k.sent

complete_room :
    (es : List BeaconEvent) (r : ℕ) (xs : List BeaconEvent)
    → (send_all es (record { room = r; sent = xs })).1 ≡ true
    → take r es ≡ es
unfolding send_all
complete_room [] zero xs h = refl
complete_room [] (suc r) xs h = refl
complete_room (e ∷ es) zero xs h = cc
complete_room (e ∷ es) (suc r) xs h = ap (λ ys. e ∷ ys) (complete_room es r (xs ++ (e ∷ [])) h)

pub send_all_complete :
    (es : List BeaconEvent) (k : EventSink)
    → (send_all es k).1 ≡ true
    → (send_all es k).0.sent ≡ k.sent ++ es
send_all_complete es k h =
    send_all-sent es k ∙ ap (λ ys. k.sent ++ ys) (complete_room es k.room k.sent h)

closed_room :
    (es : List BeaconEvent) (r : ℕ) (xs : List BeaconEvent)
    → (send_all es (record { room = r; sent = xs })).1 ≡ false
    → (send_all es (record { room = r; sent = xs })).0.room ≡ 0
unfolding send_all
closed_room [] r xs h = cc
closed_room (e ∷ es) zero xs h = refl
closed_room (e ∷ es) (suc r) xs h = closed_room es r (xs ++ (e ∷ [])) h

-- Once a send has failed, the next one fails too.
pub send_all-closed :
    (es : List BeaconEvent) (k : EventSink) → (send_all es k).1 ≡ false → (send_all es k).0.room ≡ 0
send_all-closed es k h = closed_room es k.room k.sent h

pub count-take-le :
    (p : BeaconEvent → Bool) (n : ℕ) (xs : List BeaconEvent) → count p (take n xs) ≤ count p xs
unfolding count
count-take-le p zero [] = omega arith
count-take-le p zero (x ∷ xs) = omega arith
count-take-le p (suc n) [] = omega arith
count-take-le p (suc n) (x ∷ xs) = omega (arith, count-take-le p n xs)

pub count-send_all-le :
    (p : BeaconEvent → Bool) (es : List BeaconEvent) (k : EventSink)
    → count p (send_all es k).0.sent ≤ count p k.sent + count p es
count-send_all-le p es k = omega (
  arith,
  ap (count p) (send_all-sent es k),
  count-append p k.sent (take k.room es),
  count-take-le p k.room es,
)

-- Events that fail the test change no count.
pub count-send_all-none :
    (p : BeaconEvent → Bool) (es : List BeaconEvent) (k : EventSink)
    → count p es ≡ 0
    → count p (send_all es k).0.sent ≡ count p k.sent
count-send_all-none p es k h = omega (
  arith,
  ap (count p) (send_all-sent es k),
  count-append p k.sent (take k.room es),
  count-take-le p k.room es,
  h,
)

single_room :
    (e : BeaconEvent) (r : ℕ) (xs : List BeaconEvent)
    → (send_all (e ∷ []) (record { room = r; sent = xs })).1 ≡ false
    → (send_all (e ∷ []) (record { room = r; sent = xs })).0.sent ≡ xs
unfolding send_all
single_room e zero xs h = refl
single_room e (suc r) xs h = cc

-- An event whose send fails has not arrived.
pub send_all-single :
    (e : BeaconEvent) (k : EventSink)
    → (send_all (e ∷ []) k).1 ≡ false
    → (send_all (e ∷ []) k).0.sent ≡ k.sent
send_all-single e k h = single_room e k.room k.sent h
