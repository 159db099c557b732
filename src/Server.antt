-- ===== src/Server.antt =====
-- levin/core/server.py: the servers that `run_apps` makes of its arguments. Objects are numbers.
pub mod Life
pub mod Setup
pub mod Serving
pub mod Tests
use levin.Prelude.{
  ℕ, ◌≡◌, refl, ap, Bool, true, false, not, Option, none, some, List, [], ◌∷◌, ◌++◌,
}

-- An argument: a list or a tuple of two, or any other object.
pub data Argument : Type 0 where
  single : ℕ → Argument
  pair : ℕ → ℕ → Argument

-- `Server(app, host="0.0.0.0", port=port)`
pub record Server : Type 0 where
  pub app : Option ℕ
  pub port : Option ℕ

-- The variables after one round of the loop, from the app before it; `even` tells of the argument's
-- index.
abbrev pub read_argument : Bool → Argument → Option ℕ → Server
read_argument even (pair app port) before = record { app = some app; port = some port }
read_argument true (single app) before = record { app = some app; port = none }
read_argument false (single port) before = record { app = before; port = some port }

-- The loop of `run_apps`.
unfoldable pub read_arguments : Bool → List Argument → Option ℕ → List Server
read_arguments even [] before = []
read_arguments even (arg ∷ args) before =
    let server = read_argument even arg before in server ∷ read_arguments (not even) args server.app

-- run_apps(*args), up to `run`
unfoldable pub run_apps : List Argument → List Server
unfolding read_arguments
run_apps args = read_arguments true args none

-- Applications and their ports, one after the other.
abbrev pub alternating : List (ℕ × ℕ) → List Argument
alternating [] = []
alternating ((app, port) ∷ rest) = single app ∷ single port ∷ alternating rest

abbrev pub pairs_of : List (ℕ × ℕ) → List Argument
pairs_of [] = []
pairs_of ((app, port) ∷ rest) = pair app port ∷ pairs_of rest

abbrev pub served : List (ℕ × ℕ) → List Server
served [] = []
served ((app, port) ∷ rest) = record { app = some app; port = some port } ∷ served rest

-- Each application, once without a port and once with it.
abbrev pub served_twice : List (ℕ × ℕ) → List Server
served_twice [] = []
served_twice ((app, port) ∷ rest) =
    record { app = some app; port = none }
    ∷ record { app = some app; port = some port }
    ∷ served_twice rest

alternating_lem :
    (apps : List (ℕ × ℕ)) (before : Option ℕ)
    → read_arguments true (alternating apps) before ≡ served_twice apps
unfolding read_arguments
alternating_lem [] before = refl
alternating_lem ((app, port) ∷ rest) before =
    ap
      (λ servers.
        record { app = some app; port = none }
        ∷ record { app = some app; port = some port }
        ∷ servers)
      (alternating_lem rest (some app))

pairs_lem :
    (apps : List (ℕ × ℕ)) (even : Bool) (before : Option ℕ)
    → read_arguments even (pairs_of apps) before ≡ served apps
unfolding read_arguments
pairs_lem [] even before = refl
pairs_lem ((app, port) ∷ rest) even before =
    ap (λ servers. record { app = some app; port = some port } ∷ servers)
      (pairs_lem rest (not even) (some app))

-- Given pairs, `run_apps` makes one server for each, with its port; given applications and ports one
-- after the other, it makes two servers for each application, the first of them without a port.
pub run_apps_lem :
    (apps : List (ℕ × ℕ))
    → (run_apps (pairs_of apps) ≡ served apps) × (run_apps (alternating apps) ≡ served_twice apps)
unfolding run_apps
run_apps_lem apps = (pairs_lem apps true none, alternating_lem apps none)
