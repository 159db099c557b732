-- ===== src/Server/Serving/Streams.antt =====
-- A server that gets a client's HTTP/2 stream.
use levin.Bytes.{Bytes}
use levin.Result.{Result}
use levin.Hyper.Parser
