-- ===== src/Server/Setup.antt =====
-- levin/core/server.py: `Server.__init__`, `create_ssl_context`, what `get_task` asks of asyncio, and
-- `run_app`; and levin/core/app.py: `run`. Python's ssl library is a parameter.
use levin.Prelude.{ℕ, ◌≡◌, refl, Bool, true, false, Option, none, some, List, [], ◌∷◌}
use levin.Bytes.{Str, codes}
use levin.Result.{Error, Result, ok, err, ◌>>=◌}
use levin.Server.Life.{Running, Step, run}

-- What is switched on in the context's options.
pub data SslOption : Type 0 where
  no_tlsv1 no_tlsv1_1 no_compression : SslOption

-- The calls of `ssl`: a default context for the authentication of clients, its options, the certificate,
-- whose files may be missing or wrong, and the protocols of ALPN.
pub record SslOps (X : Type 0) : Type 0 where
  pub create_default_context : X
  pub add_options : List SslOption → X → X
  pub load_cert_chain : (certfile keyfile : Str) → X → Result X
  pub set_alpn_protocols : List Str → X → X

-- A Server, but for its application's coroutines.
pub record Server (X : Type 0) : Type 0 where
  pub app : ℕ
  pub host : Str
  pub port : ℕ
  pub ssl_context : Option X

-- The arguments of `create_server` beside the maker of connections.
pub record Listening (X : Type 0) : Type 0 where
  pub host : Str
  pub port : ℕ
  pub reuse_address : Bool
  pub reuse_port : Bool
  pub ssl : Option X

-- Server.get_task(loop, stop_event), the call that it makes
unfoldable pub listening_of : {X : Type 0} → Server X → Listening X
listening_of server = record {
  host = server.host;
  port = server.port;
  reuse_address = true;
  reuse_port = false;
  ssl = server.ssl_context;
}

module _ {X : Type 0} (ssl : SslOps X) where
  -- Server.create_ssl_context(certfile, keyfile)
  unfoldable pub create_ssl_context : Str → Str → Result X
  create_ssl_context certfile keyfile = do
    context ←
        ssl.load_cert_chain certfile keyfile
          (ssl.add_options (no_tlsv1 ∷ no_tlsv1_1 ∷ no_compression ∷ []) ssl.create_default_context)
    ok (ssl.set_alpn_protocols (codes "h2" ∷ []) context)

  -- `if ssl: self.ssl_context = self.create_ssl_context(*ssl)`
  context_of : Option (Str × Str) → Result (Option X)
  unfolding create_ssl_context
  context_of none = ok none
  context_of (some (certfile, keyfile)) = do
    context ← create_ssl_context certfile keyfile
    ok (some context)

  -- Server.__init__
  unfoldable pub new_server : ℕ → Str → ℕ → Option (Str × Str) → Result (Server X)
  unfolding context_of
  new_server app host port files = do
    context ← context_of files
    ok (record { app = app; host = host; port = port; ssl_context = context })

  -- What becomes of a server: the hooks of its application, and asyncio.
  module _ (running : Server X → Running) where
    run_one : Result (Server X) → List Step × Option Error
    run_one (err e) = ([], some e)
    run_one (ok server) = run true (running server ∷ [])

    -- run_app(app, host, port, ssl)
    unfoldable pub run_app : ℕ → Str → ℕ → Option (Str × Str) → List Step × Option Error
    unfolding run_one new_server
    run_app app host port files = run_one (new_server app host port files)

    -- Application.run(host, port, ssl)
    unfoldable pub run_application :
        ℕ → (host : Str) → ℕ → Option (Str × Str) → List Step × Option Error
    unfolding run_app
    run_application app host port files = run_app app host port files

    -- Where ssl cannot load the certificate, no application is started.
    pub run_app-fails :
        (app : ℕ) (host : Str) (port : ℕ) (certfile keyfile : Str) (e : Error)
        → create_ssl_context certfile keyfile ≡ err e
        → run_app app host port (some (certfile, keyfile)) ≡ ([], some e)
    unfolding run_app
    run_app-fails app host port certfile keyfile e h = rw h refl
