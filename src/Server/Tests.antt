-- ===== src/Server/Tests.antt =====
-- `run_apps(app, port)`, and a server that answers a GET.
use levin.Prelude.{ℕ, ◌++◌, ◌≡◌, refl, [], ◌∷◌, some, none}
use levin.Server.{single, run_apps}
use levin.Prelude.{List, true, false}
use levin.Bytes.{Bytes, codes}
use levin.Result.{Result, ok, err, value_error, raised}
use levin.Common.{Request, Response, new_request, new_response}
use levin.Http.Printing.{lowered}
use levin.Http.Tests.{get_word, path_word, version_word, host}
use levin.HttpTools.{Feed, invalid_method}
use levin.Hyper.Tests.{small_h2, head_1, between}
use levin.Connection.{Transport, Handler}
use levin.Server.Life.{
  Running, listening, refused, started, stopped, event_set, tasks_cancelled, loop_closed, run,
}
use levin.Server.Life.Runs.{run_lem}
use levin.Hyper.{H2Ops, request_received, stream_ended}

two_servers :
    run_apps (single 1 ∷ single 8000 ∷ [])
    ≡ record { app = some 1; port = none } ∷ record { app = some 1; port = some 8000 } ∷ []
unfolding run_apps
two_servers = refl

abbrev pub feed : Bytes → Feed
feed input = record { callbacks = []; ending = invalid_method; method = []; http_version = [] }

abbrev pub authority : Request → Result Bytes
authority request = err value_error

abbrev pub wire : Transport
wire = record { written = []; closing = false; is_ssl = false }

abbrev pub asked : Request
asked =
    new_request path_word get_word (some (codes "q=1")) (lowered host) version_word 0 (codes "http")

-- The connections' response of status 500 after one of HTTP/2
abbrev pub used_response : Response
used_response = new_response 500 (codes "Sorry") ((codes "content-length", codes "5") ∷ [])

abbrev pub greeting : Response
greeting = new_response 200 (codes "hi") ((codes "content-type", codes "t") ∷ [])

abbrev pub greet : Handler
greet request = (ok greeting, request)

-- The third server is not stopped, and none is closed.
abbrev three : List Running
three =
    record { ident = 1; start_error = none; stop_error = none; task = listening }
    ∷ record { ident = 2; start_error = none; stop_error = some (raised 7); task = listening }
    ∷ record { ident = 3; start_error = none; stop_error = none; task = refused }
    ∷ []

run_lem_example : run true three ≡ (
  started 1
      ∷ started 2
      ∷ started 3
      ∷ stopped 1
      ∷ stopped 2
      ∷ event_set
      ∷ tasks_cancelled
      ∷ loop_closed
      ∷ [],
  none,
)
run_lem_example = run_lem true three

abbrev streaming_h2 : H2Ops ℕ
streaming_h2 = record small_h2 {
  receive_data =
      λ bytes h. (some (request_received 1 head_1 ∷ (between ++ stream_ended 1 ∷ [])), h);
}
