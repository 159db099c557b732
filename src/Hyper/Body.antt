-- ===== src/Hyper/Body.antt =====
-- levin/core/parsers/hyper.py: the loop of `handle_response` that sends the body.
use levin.Prelude.{
  ℕ, zero, suc, ◌<◌, ◌≤◌, ◌≡◌, ◌≢◌, refl, ap, ◌∙◌, Bool, true, false, not, ◌&&◌, List, [], ◌∷◌,
  ◌++◌, append_assoc, append-nil, arith, none, leb, drop, length, length-drop, take-append-drop,
  if◌then◌else◌, min, Bool-cases, inl, inr, leb→le,
}
use levin.Bytes.{Bytes}
use levin.Result.{Result, ok, err}
use levin.Hyper.{H2Ops}
use levin.Hyper.Send.{
  Frame, Sent, stopped, after_yield, after_window, window_or_zero, chunk_size, send_body,
}

-- The bytes of the frames, in order.
abbrev pub contents : List Frame → Bytes
contents [] = []
contents (frame ∷ frames) = frame.content ++ contents frames

-- The last frame, and no other, is marked as the end of the stream, where `marked` is true.
abbrev pub EndsLast : Bool → List Frame → Type 0
EndsLast marked [] = ⊥
EndsLast marked (frame ∷ []) = frame.ends ≡ marked
EndsLast marked (frame ∷ other ∷ frames) = (frame.ends ≡ false) × EndsLast marked (other ∷ frames)

module _ {H : Type 0} (window : Result ℕ) (accepted : Bool) (chunk : Bytes) (frame : Frame)
    (left bytes : Bytes) (h h' h'' : H) where
  -- A round of the loop, from what the rest of the loop does.
  abbrev pub round : Sent H → Sent H
  round rest =
      after_window window bytes h
        (if accepted then after_yield chunk frame left h' rest else stopped none bytes h'')

round_prefix :
    {H : Type 0} (window : Result ℕ) (accepted : Bool) (chunk : Bytes) (frame : Frame)
    (left bytes : Bytes) (h h' h'' : H) (rest : Sent H)
    → contents rest.frames ++ rest.unsent ≡ left
    → frame.content ++ left ≡ bytes
    → let s = round window accepted chunk frame left bytes h h' h'' rest in
      contents s.frames ++ s.unsent ≡ bytes
round_prefix (err e) accepted chunk frame left bytes h h' h'' rest k e' = refl
round_prefix (ok zero) accepted chunk frame left bytes h h' h'' rest k e' = refl
round_prefix (ok (suc w)) false chunk frame left bytes h h' h'' rest k e' = refl
round_prefix (ok (suc w)) true chunk frame [] bytes h h' h'' rest k e' = append-nil _ ∙ e'
round_prefix (ok (suc w)) true chunk frame (b ∷ left) bytes h h' h'' rest k e' =
    append_assoc frame.content (contents rest.frames) rest.unsent
    ∙ ap (λ xs. frame.content ++ xs) k
    ∙ e'

EndsLast-cons :
    (marked : Bool) (frame : Frame) (frames : List Frame)
    → frame.ends ≡ false
    → EndsLast marked frames
    → EndsLast marked (frame ∷ frames)
EndsLast-cons marked frame [] e h = absurd h
EndsLast-cons marked frame (other ∷ frames) e h = (e, h)

round_ends :
    {H : Type 0} (window : Result ℕ) (accepted : Bool) (chunk : Bytes) (frame : Frame)
    (left bytes : Bytes) (h h' h'' : H) (rest : Sent H) (marked : Bool)
    → (left ≡ [] → frame.ends ≡ marked)
    → (left ≢ [] → frame.ends ≡ false)
    → (rest.finished ≡ true → (rest.unsent ≡ []) × EndsLast marked rest.frames)
    → (round window accepted chunk frame left bytes h h' h'' rest).finished ≡ true
    → ((round window accepted chunk frame left bytes h h' h'' rest).unsent ≡ [])
      × EndsLast marked (round window accepted chunk frame left bytes h h' h'' rest).frames
round_ends (err e) accepted chunk frame left bytes h h' h'' rest marked p q r d = cc
round_ends (ok zero) accepted chunk frame left bytes h h' h'' rest marked p q r d = cc
round_ends (ok (suc w)) false chunk frame left bytes h h' h'' rest marked p q r d = cc
round_ends (ok (suc w)) true chunk frame [] bytes h h' h'' rest marked p q r d = (refl, p refl)
round_ends (ok (suc w)) true chunk frame (b ∷ left) bytes h h' h'' rest marked p q r d =
    ((r d).0, EndsLast-cons marked frame rest.frames (q (λ e. cc)) (r d).1)

round_same :
    {H : Type 0} (window : Result ℕ) (accepted : Bool) (chunk : Bytes) (frame : Frame)
    (left bytes : Bytes) (h h' h'' : H) (rest rest' : Sent H)
    → ((w : ℕ) → window ≡ ok (suc w) → left ≢ [] → rest ≡ rest')
    → round window accepted chunk frame left bytes h h' h'' rest
      ≡ round window accepted chunk frame left bytes h h' h'' rest'
round_same (err e) accepted chunk frame left bytes h h' h'' rest rest' k = refl
round_same (ok zero) accepted chunk frame left bytes h h' h'' rest rest' k = refl
round_same (ok (suc w)) false chunk frame left bytes h h' h'' rest rest' k = refl
round_same (ok (suc w)) true chunk frame [] bytes h h' h'' rest rest' k = refl
round_same (ok (suc w)) true chunk frame (b ∷ left) bytes h h' h'' rest rest' k =
    ap (round (ok (suc w)) true chunk frame (b ∷ left) bytes h h' h'') (k w refl (λ e. cc))

pub length-empty {ℓ} : {A : Type ℓ} (xs : List A) → length xs ≡ 0 → xs ≡ []
length-empty [] h = refl
length-empty (x ∷ xs) h = absurd (omega arith)

abbrev no_bytes : Bytes
no_bytes = []

drop-nil : (n : ℕ) → drop n no_bytes ≡ []
drop-nil zero = refl
drop-nil (suc n) = refl

-- A test of the length tells whether anything is left.
leb_left : (n : ℕ) (bytes : Bytes) → drop n bytes ≡ [] → leb (length bytes) n ≡ true
leb_left n bytes e =
    let h : length bytes ≤ n = omega (arith, length-drop n bytes, ap length e) in ground arith

pub leb_more : (n : ℕ) (bytes : Bytes) → drop n bytes ≢ [] → leb (length bytes) n ≡ false
leb_more n bytes e = elim (Bool-cases (leb (length bytes) n)) [
  | inr k ↦ k
  | inl k ↦ absurd (e (length-empty _ (omega (arith, length-drop n bytes, leb→le _ _ k))))
]

pub shorter :
    (n : ℕ) (bytes : Bytes) → 0 < n → drop n bytes ≢ [] → length (drop n bytes) < length bytes
shorter zero [] p e = absurd (omega arith)
shorter (suc n) [] p e = absurd (e refl)
shorter n (b ∷ bytes) p e = omega (arith, length-drop n (b ∷ bytes))

and_true : (b : Bool) → (b && true) ≡ b
and_true true = refl
and_true false = refl

pub and_false : (b : Bool) → (b && false) ≡ false
and_false true = refl
and_false false = refl

-- The window and the frames hold a byte, and there is one left.
pub chunk_size_positive :
    (window frame_size : ℕ) (bytes : Bytes)
    → 0 < window
    → 0 < frame_size
    → drop (min window (min (length bytes) frame_size)) bytes ≢ []
    → 0 < min window (min (length bytes) frame_size)
chunk_size_positive window frame_size [] p q e = absurd (e (drop-nil _))
chunk_size_positive window frame_size (b ∷ bytes) p q e = omega arith

module _ {H : Type 0} (h2 : H2Ops H) (owner target : ℕ) (pushes : Bool) where
  -- Whatever h2 answers, the frames that were sent hold the body up to a place, in order and without a
  -- gap, and the bytes that were not sent are the rest of it.
  pub send_body_prefix :
      (f : ℕ) (bytes : Bytes) (h : H)
      → contents (send_body h2 f owner target pushes bytes h).frames
          ++ (send_body h2 f owner target pushes bytes h).unsent
        ≡ bytes
  unfolding send_body
  send_body_prefix zero bytes h = refl
  send_body_prefix (suc f) bytes h =
      round_prefix (h2.local_flow_control_window owner h) _ _ _ _ bytes h _ _ _
        (send_body_prefix f _ _) (take-append-drop (chunk_size h2 owner bytes h) bytes)

  -- Where the loop comes to its end, no byte is unsent, and of the frames the last one, and no other,
  -- ends the stream, unless the response has pushes: then none does.
  pub send_body_ends :
      (f : ℕ) (bytes : Bytes) (h : H)
      → (send_body h2 f owner target pushes bytes h).finished ≡ true
      → ((send_body h2 f owner target pushes bytes h).unsent ≡ [])
        × EndsLast (not pushes) (send_body h2 f owner target pushes bytes h).frames
  unfolding send_body
  send_body_ends zero bytes h d = cc
  send_body_ends (suc f) bytes h d =
      round_ends (h2.local_flow_control_window owner h) _ _ _ _ bytes h _ _ _ (not pushes)
        (λ e. rw (leb_left _ bytes e) (and_true (not pushes)))
        (λ e. rw (leb_more _ bytes e) (and_false (not pushes))) (send_body_ends f _ _) d

  -- The loop comes to an end of its own: where h2's frames hold at least one byte, one round more than
  -- there are bytes gives what any greater number of rounds gives.
  pub send_body_enough :
      ((h : H) → 0 < h2.max_outbound_frame_size h)
      → (f g : ℕ) (bytes : Bytes) (h : H) → length bytes < f
      → length bytes < g
      → send_body h2 f owner target pushes bytes h ≡ send_body h2 g owner target pushes bytes h
  unfolding send_body
  send_body_enough k zero g bytes h p q = absurd (omega arith)
  send_body_enough k (suc f) zero bytes h p q = absurd (omega arith)
  send_body_enough k (suc f) (suc g) bytes h p q =
      round_same (h2.local_flow_control_window owner h) _ _ _ _ bytes h _ _ _ _
        (λ (w : ℕ) e (m : drop (chunk_size h2 owner bytes h) bytes ≢ []).
          let ready : 0 < window_or_zero (h2.local_flow_control_window owner h) =
            rw (ap window_or_zero e) (omega arith) in
          let less = shorter _ bytes (chunk_size_positive _ _ bytes ready (k h) m) m in
          send_body_enough k f g _ _ (omega arith) (omega arith))
