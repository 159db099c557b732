-- ===== src/Connection/Tests.antt =====
-- A connection whose parsers are numbers: parser 0 refuses everything, and any other counts the data that
-- it has seen and gives one request.
use levin.Prelude.{ℕ, zero, suc, ◌≡◌, refl, false, Option, none, some, List, [], ◌∷◌, arith}
use levin.Bytes.{Bytes, codes}
use levin.Result.{Result, ok, err, parse_error, type_error}
use levin.Common.{Request, new_response}
use levin.Http.{Parsed}
use levin.Connection.{
  ParserOps, Future, Transport, Connection, cancelled, Handler, parse, data_received, sweep,
  connection_lost, close, run_future,
}
use levin.Connection.Choice.{parse_sticks, data_received_refused}
use levin.Connection.Invariant.{IsWellFormed}
use levin.Connection.Drain.{run_each, run_each-drains}
use levin.Connection.Receive.{events-IsWellFormed}
use levin.Connection.Sweep.{every_other, sweep_enough, connection_lost_skips}

abbrev asked : Request
asked = record {
  raw_path = codes "/";
  method = codes "GET";
  body = none;
  headers = [];
  stream = 0;
  protocol = codes "HTTP/1.1";
  scheme = codes "http";
  scope = [];
}

abbrev one_request : Parsed
one_request = record { to_send = some (codes "hi"); requests = asked ∷ []; close = false }

abbrev count : ℕ → Bytes → Result Parsed × ℕ
count zero input = (err parse_error, zero)
count (suc n) input = (ok one_request, suc (suc n))

abbrev counting : ParserOps ℕ
counting = record {
  connect = λ p. p;
  handle_request = count;
  handle_response = λ p response request. (response.body ∷ [], none, response, p);
  push_support = λ p. false;
}

abbrev wire : Transport
wire = record { written = []; closing = false; is_ssl = false }

abbrev future : ℕ → Future
future n = record { ident = n; request = asked; closes = false }

abbrev opened : List ℕ → Option ℕ → List Future → ℕ → Connection ℕ
opened parsers chosen futures next_future = record {
  parsers = parsers;
  chosen = chosen;
  transport = some wire;
  futures = futures;
  next_future = next_future;
  response_500 = new_response 500 (codes "Sorry") [];
}

abbrev input : Bytes
input = codes "x"

abbrev fresh : Connection ℕ
fresh = opened (0 ∷ 1 ∷ 5 ∷ []) none [] 0

parse_sticks_example :
    (d : Connection ℕ) × (parse counting input fresh ≡ (some (ok one_request), d))
    × (d ≡ opened (0 ∷ 2 ∷ 5 ∷ []) (some 1) [] 0)
    × (parse counting (codes "y") d
        ≡ (some (ok one_request), record d { parsers = 0 ∷ 3 ∷ 5 ∷ [] }))
parse_sticks_example =
    parse_sticks counting input (codes "y") fresh (0 ∷ []) (5 ∷ []) 1 2 one_request refl refl
      (refl, tt) refl

abbrev strangers : Connection ℕ
strangers = opened (0 ∷ 0 ∷ []) none [] 0

data_received_refused_example :
    data_received counting input strangers ≡ (some type_error, opened (0 ∷ 0 ∷ []) none [] 0)
data_received_refused_example =
    data_received_refused counting input strangers refl (refl, (refl, tt))

abbrev busy : Connection ℕ
busy = opened (1 ∷ []) (some 0) (future 0 ∷ future 1 ∷ future 2 ∷ future 3 ∷ []) 4

busy-IsWellFormed : IsWellFormed busy
busy-IsWellFormed = record { distinct = omega arith; below = omega arith }

abbrev greet : Handler
greet request = (ok (new_response 200 (codes "hello") []), request)

events-IsWellFormed_example :
    IsWellFormed (data_received counting input busy).1
    × IsWellFormed (run_future counting greet (future 2) busy)
    × IsWellFormed (connection_lost counting busy)
    × IsWellFormed (close counting busy).1
events-IsWellFormed_example =
    events-IsWellFormed counting busy input greet (future 2) busy-IsWellFormed

abbrev busy_after : Connection ℕ
busy_after = opened (2 ∷ []) (some 0) (future 0 ∷ future 1 ∷ future 2 ∷ future 3 ∷ []) 4

busy_parsed : parse counting input busy ≡ (some (ok one_request), busy_after)
unfolding parse
busy_parsed = refl

sweep_enough_example : sweep counting 6 cancelled 0 busy ≡ sweep counting 5 cancelled 0 busy
sweep_enough_example = sweep_enough counting 5 cancelled 0 busy (omega arith)

connection_lost_skips_example :
    ((connection_lost counting busy).futures ≡ every_other busy.futures)
    × ((close counting busy).1.futures ≡ every_other busy.futures)
connection_lost_skips_example =
    connection_lost_skips counting busy wire refl busy-IsWellFormed.distinct
      (refl, (refl, (refl, (refl, tt))))

-- Two of the four futures are left, neither cancelled nor given the exception.
two_left : every_other busy.futures ≡ future 1 ∷ future 3 ∷ []
two_left = refl

run_each-drains_example :
    (run_each counting greet (future 3 ∷ future 1 ∷ future 0 ∷ future 2 ∷ []) busy).futures ≡ []
run_each-drains_example =
    run_each-drains counting greet (future 3 ∷ future 1 ∷ future 0 ∷ future 2 ∷ []) busy
      busy-IsWellFormed (refl, (refl, (refl, (refl, tt)))) (refl, (refl, (refl, (refl, tt))))
