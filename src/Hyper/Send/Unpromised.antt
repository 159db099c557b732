-- ===== src/Hyper/Send/Unpromised.antt =====
-- levin/core/parsers/hyper.py: `handle_response` of a response to the request's own stream.
use levin.Prelude.{◌≡◌, refl, false, none, List, [], ◌∷◌, suc, length}
use levin.Bytes.{Bytes, codes, decimal}
use levin.Result.{Result}
use levin.Common.{Request, Response}
use levin.Hyper.{H2Ops}
use levin.Hyper.Send.{with_content_length, send_body, handle_response, send_response, send_stream}

-- The list of headers that `send_headers` gets
abbrev pub sent_headers : {H : Type 0} → H2Ops H → Response → List (Bytes × Bytes)
sent_headers h2 response =
    (codes ":status", decimal response.status) ∷ (with_content_length h2 response).headers

module _ {H : Type 0} (h2 : H2Ops H) where
  -- A response that does not go on a promised stream, where h2 takes its headers.
  pub handle_response-send_body :
      (authority : Request → Result Bytes) (response : Response) (request : Request) (h h' : H)
      → response.push ≡ false
      → response.pushes ≡ []
      → h2.send_headers request.stream (sent_headers h2 response) h ≡ (none, h')
      → handle_response h2 authority response request h
        ≡ send_body h2
            (suc (length response.body))
            request.stream
            request.stream
            false
            response.body
            h'
  unfolding handle_response send_response send_stream
  handle_response-send_body authority response request h h' stays alone accepted =
      rw (stays, accepted, alone) refl
