-- ===== src/Cli/Run.antt =====
-- levin/components/cli.py: the help of all components and the command `run`.
use levin.Prelude.{
  ℕ, ◌≡◌, refl, ap, true, false, not, ◌&&◌, Option, none, some, List, [], ◌∷◌, is_empty,
  if◌then◌else◌,
}
use levin.Bytes.{Str}
use levin.Result.{Error}
use levin.Component.{Component}
use levin.Server.Life.{Running, Step, run}
use levin.Server.Setup.{SslOps, Server, new_server, run_application}
use levin.Cli.Options.{Method, get_commands}

-- Cli._cli_root(): the sub-parsers that are added, a component's name and the docstring of its class. The
-- methods of a component are what `inspect.getmembers` lists.
unfoldable pub cli_root :
    (Component → List Method) → (Component → Option Str) → List Component → List (Str × Option Str)
unfolding get_commands
cli_root methods doc [] = []
cli_root methods doc (c ∷ cs) =
    let rest = cli_root methods doc cs in
    if is_empty (get_commands (methods c)) then rest else (c.name, doc c) ∷ rest

-- `ssl` in the command `run`: the certificate's file and the key's, where both are given.
abbrev pub files_of : Str → Str → Option (Str × Str)
files_of ssl_cert ssl_key =
    if not (is_empty ssl_key) && not (is_empty ssl_cert) then some (ssl_cert, ssl_key) else none

module _ {X : Type 0} (ssl : SslOps X) (running : Server X → Running) (app : ℕ) where
  -- Cli.run(port, host, ssl_cert, ssl_key)
  unfoldable pub run_command : (port : ℕ) → (host ssl_cert ssl_key : Str) → List Step × Option Error
  unfolding run_application
  run_command port host ssl_cert ssl_key =
      run_application ssl running app host port (files_of ssl_cert ssl_key)

  files_of-half :
      (cert key : Str)
      → not (is_empty key) && not (is_empty cert) ≡ false
      → files_of cert key ≡ none
  files_of-half cert key h = rw h refl

  -- With one of the two files left out, the command runs a server without TLS, at the host and the port
  -- that are given, and does not say so.
  pub run_command-half :
      (port : ℕ) (host cert key : Str)
      → not (is_empty key) && not (is_empty cert) ≡ false
      → run_command port host cert key
        ≡ run true
            (running (record { app = app; host = host; port = port; ssl_context = none }) ∷ [])
  unfolding run_command new_server
  run_command-half port host cert key h =
      ap (run_application ssl running app host port) (files_of-half cert key h)
