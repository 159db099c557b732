-- ===== src/Server/Serving/Answers.antt =====
-- A server that answers a request of an HTTP/2 stream.
use levin.Bytes.{Bytes}
use levin.Result.{Result}
use levin.Hyper.Parser
use levin.Hyper.Send
use levin.Connection.{Connection}
