-- ===== src/Hyper/Send.antt =====
-- levin/core/parsers/hyper.py: `handle_response`, the headers, the push and the flow-controlled body.
pub mod Unpromised
use levin.Prelude.{
  ℕ, zero, suc, Bool, true, false, not, ◌&&◌, List, [], ◌∷◌, Option, none, some, leb, min, take,
  drop, length, is_empty, if◌then◌else◌,
}
use levin.Bytes.{Bytes, codes, decimal}
use levin.Result.{Error, Result, ok, err}
use levin.Dict.{put}
use levin.Common.{Request, Response}
use levin.Hyper.{H2Ops}

-- A call of `send_data` that h2 accepted: the bytes, and whether they end the stream.
pub record Frame : Type 0 where
  pub content : Bytes
  pub ends : Bool

-- What the loop does: the chunks that it yields, the frames that it sends, the bytes that it does not
-- send, whether it came to its end, and what it raises.
pub record Sent (H : Type 0) : Type 0 where
  pub chunks : List Bytes
  pub frames : List Frame
  pub unsent : Bytes
  pub finished : Bool
  pub failure : Option Error
  pub conn : H

abbrev pub window_or_zero : Result ℕ → ℕ
window_or_zero (err e) = 0
window_or_zero (ok w) = w

module _ {H : Type 0} where
  abbrev pub stopped : Option Error → Bytes → H → Sent H
  stopped failure bytes h = record {
    chunks = [];
    frames = [];
    unsent = bytes;
    finished = false;
    failure = failure;
    conn = h;
  }

  -- The part of a round behind `yield`: `data = data[chunk_size:]`, and the return where it is empty.
  abbrev pub after_yield : Bytes → Frame → Bytes → H → Sent H → Sent H
  after_yield chunk frame [] h rest = record {
    chunks = chunk ∷ [];
    frames = frame ∷ [];
    unsent = [];
    finished = true;
    failure = none;
    conn = h;
  }
  after_yield chunk frame (b ∷ bytes) h rest = record rest {
    chunks = chunk ∷ rest.chunks;
    frames = frame ∷ rest.frames;
  }

  -- `if window < 1: return`
  abbrev pub after_window : Result ℕ → Bytes → H → Sent H → Sent H
  after_window (err e) bytes h go = stopped (some e) bytes h
  after_window (ok zero) bytes h go = stopped none bytes h
  after_window (ok (suc w)) bytes h go = go

module _ {H : Type 0} (h2 : H2Ops H) where
  abbrev pub chunk_size : ℕ → Bytes → H → ℕ
  chunk_size owner bytes h =
      min (window_or_zero (h2.local_flow_control_window owner h))
        (min (length bytes) (h2.max_outbound_frame_size h))

  -- `while True`, on fuel. `owner` is `request.stream`, whose window is read; `target` is the stream
  -- that is written.
  unfoldable pub send_body : ℕ → ℕ → ℕ → Bool → Bytes → H → Sent H
  send_body zero owner target pushes bytes h = stopped none bytes h
  send_body (suc f) owner target pushes bytes h =
      let n = chunk_size owner bytes h in
      let ends = not pushes && leb (length bytes) n in
      let sent = h2.send_data target (take n bytes) ends h in
      let flushed = h2.data_to_send sent.1 in
      let rest = send_body f owner target pushes (drop n bytes) flushed.1 in
      after_window (h2.local_flow_control_window owner h) bytes h (
        if sent.0
        then after_yield flushed.0 (record { content = take n bytes; ends = ends }) (drop n bytes)
            flushed.1 rest
        else stopped none bytes sent.1)

  -- From `send_headers` on; one round more than there are bytes is enough.
  send_stream : ℕ → ℕ → Response → Option Error × H → Sent H
  unfolding send_body
  send_stream owner target response (some e, h) = stopped (some e) response.body h
  send_stream owner target response (none, h) =
      send_body (suc (length response.body)) owner target (not (is_empty response.pushes))
        response.body h

  -- response.headers after `response.headers[b"content-length"] = ...`
  unfoldable pub with_content_length : Response → Response
  with_content_length response = record response {
    headers = put (codes "content-length") (decimal (length response.body)) response.headers;
  }

  send_response : ℕ → ℕ → Response → Option Error × H → Sent H
  unfolding send_stream
  send_response owner target response (some e, h) = stopped (some e) response.body h
  send_response owner target response (none, h) =
      send_stream owner target response
        (h2.send_headers target ((codes ":status", decimal response.status) ∷ response.headers) h)

  -- The headers of the request that is promised.
  promised_headers : Bytes → Request → List (Bytes × Bytes)
  promised_headers authority request =
      (codes ":method", request.method)
      ∷ (codes ":path", request.raw_path)
      ∷ (codes ":scheme", request.scheme)
      ∷ (codes ":authority", authority)
      ∷ request.headers

  after_promise : ℕ → ℕ → Response → Bool × H → Sent H
  unfolding send_response
  after_promise owner target response (false, h) = stopped none response.body h
  after_promise owner target response (true, h) =
      send_response owner target response (h2.end_stream owner h)

  push_response : Result Bytes → Result ℕ → Request → Response → H → Sent H
  unfolding after_promise promised_headers
  push_response (err e) target request response h = stopped (some e) response.body h
  push_response (ok authority) (err e) request response h = stopped (some e) response.body h
  push_response (ok authority) (ok target) request response h =
      after_promise request.stream target response
        (h2.push_stream request.stream target (promised_headers authority request) h)

  -- Parser.handle_response(response, request), of the response with its length; `authority` is what
  -- `request.get_transport_info` gives, which the connection and its transport answer.
  unfoldable pub handle_response : (Request → Result Bytes) → Response → Request → H → Sent H
  unfolding push_response send_response with_content_length
  handle_response authority response request h =
      let counted = with_content_length response in
      if counted.push
      then push_response (authority request) (h2.get_next_available_stream_id h) request counted h
      else send_response request.stream request.stream counted (none, h)
