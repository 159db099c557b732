-- ===== src/Hyper/Tests.antt =====
-- Runs of the HTTP/2 parser on a small model of h2 with one window, and the theorems at concrete inputs.
use levin.Prelude.{
  ℕ, ◌-◌, ◌<◌, ◌≡◌, refl, true, false, none, some, List, [], ◌∷◌, ◌++◌, arith, length, All,
}
use levin.Bytes.{Str, codes}
use levin.Result.{ok, err, key_error}
use levin.Common.{new_request}
use levin.Hyper.{
  H2Ops, Event, request_received, data_received, stream_ended, parse_events, get_request_from_event,
  find, store, drop_stream,
}
use levin.Hyper.Send.{send_body}
use levin.Hyper.Body.{contents, EndsLast, send_body_prefix, send_body_ends, send_body_enough}
use levin.Hyper.Events.{IsWithin, data_of}
use levin.Hyper.Window.{HasWindow}
use levin.Hyper.Streams.{parse_events_stream}

-- The state is what is left of the window; frames hold three bytes.
abbrev pub small_h2 : H2Ops ℕ
small_h2 = record {
  initiate_connection = λ h. h;
  receive_data = λ bytes h. (none, h);
  data_to_send = λ h. (codes "!", h);
  clear_outbound_data_buffer = λ h. h;
  initiate_upgrade_connection = λ settings h. (none, h);
  enable_push = λ h. true;
  get_next_available_stream_id = λ h. ok 2;
  push_stream = λ s t headers h. (true, h);
  end_stream = λ s h. (none, h);
  send_headers = λ s headers h. (none, h);
  local_flow_control_window = λ s h. ok h;
  max_outbound_frame_size = λ h. 3;
  send_data = λ s bytes ends h. (true, h - length bytes);
}

-- A window of two bytes: the rest of the body is dropped and nothing is raised.
dropped : (send_body small_h2 6 1 1 false (codes "hello") 2).unsent ≡ codes "llo"
unfolding send_body
dropped = refl

whole : (send_body small_h2 6 1 1 false (codes "hello") 9).finished ≡ true
unfolding send_body
whole = refl

-- An end of a stream that was never opened.
unknown : (parse_events (stream_ended 7 ∷ []) ([], false) []).0 ≡ err key_error
unfolding parse_events find
unknown = refl

send_body_prefix_example :
    contents (send_body small_h2 6 1 1 false (codes "hello") 2).frames
      ++ (send_body small_h2 6 1 1 false (codes "hello") 2).unsent
    ≡ codes "hello"
send_body_prefix_example = send_body_prefix small_h2 1 1 false 6 (codes "hello") 2

send_body_ends_example :
    ((send_body small_h2 6 1 1 false (codes "hello") 9).unsent ≡ [])
    × EndsLast true (send_body small_h2 6 1 1 false (codes "hello") 9).frames
send_body_ends_example = send_body_ends small_h2 1 1 false 6 (codes "hello") 9 whole

three_positive : (h : ℕ) → 0 < small_h2.max_outbound_frame_size h
three_positive h = omega arith

send_body_enough_example :
    send_body small_h2 6 1 1 false (codes "hello") 9
    ≡ send_body small_h2 100 1 1 false (codes "hello") 9
send_body_enough_example =
    send_body_enough small_h2 1 1 false three_positive 6 100 (codes "hello") 9 (omega arith)
      (omega arith)

abbrev pub head_1 : List (Str × Str)
head_1 = (codes ":method", codes "POST") ∷ (codes "a", codes "b") ∷ []

abbrev pub between : List Event
between =
    data_received 1 (codes "ab")
    ∷ request_received 3 []
    ∷ data_received 3 (codes "zz")
    ∷ stream_ended 3
    ∷ data_received 1 (codes "c")
    ∷ []

pub between-IsWithin : All (IsWithin 1) between
between-IsWithin = (tt, (omega arith, (tt, (omega arith, (tt, tt)))))

pub between_parsed :
    parse_events between ([], false) (store 1 (get_request_from_event 1 head_1) []) ≡ (
      ok (record (get_request_from_event 3 []) { body = some (codes "zz") } ∷ [], false),
      (1, record (get_request_from_event 1 head_1) { body = some (codes "abc") }) ∷ [],
    )
unfolding parse_events store find drop_stream get_request_from_event new_request
between_parsed = refl

parse_events_stream_example :
    parse_events (request_received 1 head_1 ∷ (between ++ stream_ended 1 ∷ [])) ([], false) [] ≡ (
      ok (
        record (get_request_from_event 3 []) { body = some (codes "zz") }
            ∷ record (get_request_from_event 1 head_1) { body = some (data_of 1 between) }
            ∷ [],
        false,
      ),
      drop_stream 1
          ((1, record (get_request_from_event 1 head_1) { body = some (codes "abc") }) ∷ []),
    )
parse_events_stream_example =
    parse_events_stream 1 head_1 between ([], false) []
      (record (get_request_from_event 3 []) { body = some (codes "zz") } ∷ []) false
      ((1, record (get_request_from_event 1 head_1) { body = some (codes "abc") }) ∷ [])
      between-IsWithin between_parsed

-- The state of the small h2 is its window.
pub small_HasWindow : (s : ℕ) → HasWindow small_h2 s (λ h. h)
small_HasWindow s = record {
  reads = λ h p. refl;
  holds = λ h. omega arith;
  takes = λ bytes ends h p q r. refl;
  shrinks = λ bytes h p. refl;
}
