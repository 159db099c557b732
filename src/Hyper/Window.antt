-- ===== src/Hyper/Window.antt =====
-- levin/core/parsers/hyper.py: the loop that sends the body, under h2's flow control.
use levin.Prelude.{ℕ, zero, suc, ◌-◌, ◌<◌, ◌≤◌, ◌≡◌, refl, Bool, true, false, [], ◌∷◌, none, length}
use levin.Bytes.{Bytes}
use levin.Result.{Result, ok, err}
use levin.Hyper.{H2Ops}
use levin.Hyper.Send.{Frame, Sent, send_body}
use levin.Hyper.Body.{round}

round_quiet :
    {H : Type 0} (window : Result ℕ) (accepted : Bool) (chunk : Bytes) (frame : Frame)
    (left bytes : Bytes) (h h' h'' : H) (rest : Sent H)
    → (rest.finished ≡ true → rest.failure ≡ none)
    → (round window accepted chunk frame left bytes h h' h'' rest).finished ≡ true
    → (round window accepted chunk frame left bytes h h' h'' rest).failure ≡ none
round_quiet (err e) accepted chunk frame left bytes h h' h'' rest k d = cc
round_quiet (ok zero) accepted chunk frame left bytes h h' h'' rest k d = cc
round_quiet (ok (suc w)) false chunk frame left bytes h h' h'' rest k d = cc
round_quiet (ok (suc w)) true chunk frame [] bytes h h' h'' rest k d = refl
round_quiet (ok (suc w)) true chunk frame (b ∷ left) bytes h h' h'' rest k d = k d

-- What h2 documents of its window for a stream that is open: it says how much is left, takes data that fits
-- in the window and in a frame, and, unless they end the stream, then has that much less left. A frame holds
-- at least one byte.
pub record HasWindow {H : Type 0} (h2 : H2Ops H) (s : ℕ) (window : H → ℕ) : Type 0 where
  pub reads : (h : H) → 0 < window h → h2.local_flow_control_window s h ≡ ok (window h)
  pub holds : (h : H) → 0 < h2.max_outbound_frame_size h
  pub takes :
      (bytes : Bytes) (ends : Bool) (h : H)
      → 0 < window h
      → length bytes ≤ window h
      → length bytes ≤ h2.max_outbound_frame_size h
      → (h2.send_data s bytes ends h).0 ≡ true
  pub shrinks :
      (bytes : Bytes) (h : H)
      → length bytes ≤ window h
      → window (h2.data_to_send (h2.send_data s bytes false h).1).1 ≡ window h - length bytes

module _ {H : Type 0} (h2 : H2Ops H) (s : ℕ) (pushes : Bool) where
  pub send_body_quiet :
      (f target : ℕ) (bytes : Bytes) (h : H)
      → (send_body h2 f s target pushes bytes h).finished ≡ true
      → (send_body h2 f s target pushes bytes h).failure ≡ none
  unfolding send_body
  send_body_quiet zero target bytes h d = cc
  send_body_quiet (suc f) target bytes h d =
      round_quiet (h2.local_flow_control_window s h) _ _ _ _ bytes h _ _ _
        (send_body_quiet f target _ _) d
