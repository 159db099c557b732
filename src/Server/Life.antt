-- ===== src/Server/Life.antt =====
-- levin/core/server.py: `run`, `_manage` and `_stop`, as the steps that they make. The applications' hooks, and
-- how far `create_server` came when the stop event was set, are data of a server.
pub mod Runs
use levin.Prelude.{
  ℕ, ◌≡◌, refl, sym, ap, ◌∙◌, Bool, true, false, not, Option, none, some, List, [], ◌∷◌, ◌++◌,
  append_assoc, append-nil, map, if◌then◌else◌,
}
use levin.Result.{Error}

-- The task of `get_task`: `create_server` returned a server, it raised, so that the task sets the stop event
-- and returns None, or the task is not done.
pub data Task : Type 0 where
  listening refused pending : Task

-- A server: what `start` and `stop` of its application raise, and its task.
pub record Running : Type 0 where
  pub ident : ℕ
  pub start_error : Option Error
  pub stop_error : Option Error
  pub task : Task

pub data Step : Type 0 where
  started stopped closed : ℕ → Step
  event_set tasks_cancelled loop_closed : Step

start_one : ℕ → Option Error → List Step × Option Error → List Step × Option Error
start_one n none rest = (started n ∷ rest.0, rest.1)
start_one n (some e) rest = (started n ∷ [], some e)

-- `for server in servers: loop.run_until_complete(server.start())`
unfoldable pub start_servers : List Running → List Step × Option Error
unfolding start_one
start_servers [] = ([], none)
start_servers (s ∷ servers) = start_one s.ident s.start_error (start_servers servers)

close_one : ℕ → Task → List Step → List Step
close_one n listening rest = closed n ∷ rest
close_one n refused rest = rest
close_one n pending rest = []

-- The loop over the tasks in `_manage`; `server.result()` raises on a task that is not done.
unfoldable pub close_servers : List Running → List Step
unfolding close_one
close_servers [] = []
close_servers (s ∷ servers) = close_one s.ident s.task (close_servers servers)

-- What comes behind a call that may have raised.
abbrev pub unless_raised {ℓ} : {A : Type ℓ} → Option Error → List A → List A
unless_raised none rest = rest
unless_raised (some e) rest = []

-- The loop over the servers, with `after` behind it.
stop_servers : List Step → List Running → List Step
stop_servers after [] = after
stop_servers after (s ∷ servers) =
    stopped s.ident ∷ unless_raised s.stop_error (stop_servers after servers)

-- _manage(servers_async, servers, stop_event), once the event is set; what it raises `run` drops.
unfoldable pub manage : List Running → List Step
unfolding stop_servers close_servers
manage servers = stop_servers (close_servers servers) servers

-- _stop(stop_event, loop)
abbrev pub stop : List Step
stop = event_set ∷ tasks_cancelled ∷ loop_closed ∷ []

-- Without `wait` the tasks are created only, and `_stop` cancels them before their first step.
run_started : Bool → List Running → List Step × Option Error → List Step × Option Error
unfolding manage
run_started wait servers (steps, some e) = (steps, some e)
run_started wait servers (steps, none) =
    (steps ++ ((if wait then manage servers else []) ++ stop), none)

-- run(*servers, wait=wait)
unfoldable pub run : Bool → List Running → List Step × Option Error
unfolding run_started start_servers
run wait servers = run_started wait servers (start_servers servers)
