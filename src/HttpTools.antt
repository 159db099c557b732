-- ===== src/HttpTools.antt =====
-- levin/core/parsers/http_tools.py: the HTTP/1 parser over the library httptools, whose parser is a
-- parameter: the callbacks that it makes for the data, and how `feed_data` ends.
pub mod Laws
pub mod Tests
use levin.Prelude.{Bool, true, false, Option, none, some, List, [], ◌∷◌, ◌++◌, if◌then◌else◌}
use levin.Bytes.{Bytes, codes, lower}
use levin.Bytes.Utf8.{encode}
use levin.Result.{Error, Result, ok, err, parse_error}
use levin.Common.{new_request}
use levin.Http.{Parsed}

-- The callbacks of `HttpRequestParser`.
pub data Callback : Type 0 where
  on_url on_body : Bytes → Callback
  on_header : Bytes → Bytes → Callback
  on_message_complete : Callback

-- How `feed_data` ends: it returns, raises HttpParserInvalidMethodError, or raises another exception.
pub data Ending : Type 0 where
  fed invalid_method : Ending
  feed_raised : Error → Ending

pub record Feed : Type 0 where
  pub callbacks : List Callback
  pub ending : Ending
  pub method : Bytes
  pub http_version : Bytes

-- _PRequest; `path` is None until `on_url`.
pub record PRequest : Type 0 where
  pub headers : List (Bytes × Bytes)
  pub path : Option Bytes
  pub body : Bytes
  pub ready : Bool

-- _PRequest.__init__
abbrev pub empty_request : PRequest
empty_request = record { headers = []; path = none; body = []; ready = false }

-- on_url, on_header, on_body and on_message_complete
unfoldable pub take_callback : Callback → PRequest → PRequest
take_callback (on_url url) request = record request { path = some url }
take_callback (on_header name content) request = record request {
  headers = request.headers ++ (lower name, content) ∷ [];
}
take_callback (on_body body) request = record request { body = body }
take_callback on_message_complete request = record request { ready = true }

unfoldable pub take_callbacks : List Callback → PRequest → PRequest
unfolding take_callback
take_callbacks [] request = request
take_callbacks (callback ∷ callbacks) request =
    take_callbacks callbacks (take_callback callback request)

-- A message that is complete has had its URL; without one the path is left empty here.
abbrev path_or_empty : Option Bytes → Bytes
path_or_empty none = []
path_or_empty (some path) = path

finish_feed : Feed → Ending → PRequest → Result Parsed
finish_feed feed (feed_raised e) request = err e
finish_feed feed invalid_method request = err parse_error
finish_feed feed fed request =
    if request.ready
    then ok (record {
      to_send = some [];
      requests =
          new_request (path_or_empty request.path) feed.method (some request.body) request.headers
            (codes "HTTP/" ++ encode feed.http_version) 0 (codes "http")
          ∷ [];
      close = false;
    })
    else err parse_error

-- Parser.handle_request(data); `feed_data` is httptools.
unfoldable pub handle_request : (feed_data : Bytes → Feed) → Bytes → Result Parsed
unfolding take_callbacks finish_feed
handle_request feed_data input =
    let feed = feed_data input in
    finish_feed feed feed.ending (take_callbacks feed.callbacks empty_request)
