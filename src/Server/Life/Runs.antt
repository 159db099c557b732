-- ===== src/Server/Life/Runs.antt =====
-- levin/core/server.py: which servers `run` starts, stops and closes.
use levin.Prelude.{
  ℕ, ◌≡◌, refl, sym, ap, ◌∙◌, Bool, true, false, Option, none, some, List, [], ◌∷◌, ◌++◌,
  append_assoc, append-nil, map, if◌then◌else◌,
}
use levin.Result.{Error}
use levin.Server.Life.{
  Task, listening, refused, pending, Running, Step, started, stopped, closed, start_one,
  start_servers, close_one, close_servers, unless_raised, stop_servers, manage, stop, run_started,
  run,
}

abbrev pub idents : List Running → List ℕ
idents servers = map (λ s. s.ident) servers

-- The servers up to the first whose hook raises, that one with them.
abbrev pub through : (Running → Option Error) → List Running → List Running
through raises [] = []
through raises (s ∷ servers) = s ∷ unless_raised (raises s) (through raises servers)

abbrev or_first : Option Error → Option Error → Option Error
or_first none e = e
or_first (some e) _ = some e

abbrev pub first_error : (Running → Option Error) → List Running → Option Error
first_error raises [] = none
first_error raises (s ∷ servers) = or_first (raises s) (first_error raises servers)

abbrev if_listening : Running → Task → List Running → List Running
if_listening s listening rest = s ∷ rest
if_listening s refused rest = rest
if_listening s pending rest = []

-- The servers that listen, up to the first whose task is not done.
abbrev pub listeners : List Running → List Running
listeners [] = []
listeners (s ∷ servers) = if_listening s s.task (listeners servers)

start_servers_lem :
    (servers : List Running)
    → start_servers servers ≡ (
      map started (idents (through (λ s. s.start_error) servers)),
      first_error (λ s. s.start_error) servers,
    )
unfolding start_servers
start_servers_lem [] = refl
start_servers_lem (s ∷ servers) =
    ap (start_one s.ident s.start_error) (start_servers_lem servers) ∙ go s.start_error
  where
    go :
        (o : Option Error)
        → start_one s.ident o (
          map started (idents (through (λ s. s.start_error) servers)),
          first_error (λ s. s.start_error) servers,
        )
          ≡ (
            started s.ident
                ∷ map started (idents (unless_raised o (through (λ s. s.start_error) servers))),
            or_first o (first_error (λ s. s.start_error) servers),
          )
    go none = refl
    go (some e) = refl

close_servers_lem :
    (servers : List Running) → close_servers servers ≡ map closed (idents (listeners servers))
unfolding close_servers
close_servers_lem [] = refl
close_servers_lem (s ∷ servers) =
    ap (close_one s.ident s.task) (close_servers_lem servers) ∙ go s.task
  where
    go :
        (t : Task)
        → close_one s.ident t (map closed (idents (listeners servers)))
          ≡ map closed (idents (if_listening s t (listeners servers)))
    go listening = refl
    go refused = refl
    go pending = refl

stop_servers_lem :
    (after : List Step) (servers : List Running)
    → stop_servers after servers
      ≡ map stopped (idents (through (λ s. s.stop_error) servers))
        ++ unless_raised (first_error (λ s. s.stop_error) servers) after
unfolding stop_servers
stop_servers_lem after [] = refl
stop_servers_lem after (s ∷ servers) =
    ap (λ (steps : List Step). stopped s.ident ∷ unless_raised s.stop_error steps)
      (stop_servers_lem after servers)
    ∙ go s.stop_error
  where
    go :
        (o : Option Error)
        → stopped s.ident
            ∷ unless_raised o (
                map stopped (idents (through (λ s. s.stop_error) servers))
                ++ unless_raised (first_error (λ s. s.stop_error) servers) after)
          ≡ (stopped s.ident
              ∷ map stopped (idents (unless_raised o (through (λ s. s.stop_error) servers))))
            ++ unless_raised (or_first o (first_error (λ s. s.stop_error) servers)) after
    go none = refl
    go (some e) = refl

run_waiting :
    (servers : List Running)
    → run true servers ≡ (
      map started (idents (through (λ s. s.start_error) servers))
          ++ unless_raised (first_error (λ s. s.start_error) servers) (
              map stopped (idents (through (λ s. s.stop_error) servers))
              ++ (unless_raised
                    (first_error (λ s. s.stop_error) servers)
                    (map closed (idents (listeners servers)))
                  ++ stop)),
      first_error (λ s. s.start_error) servers,
    )
unfolding run manage
run_waiting servers =
    ap (run_started true servers) (start_servers_lem servers)
    ∙ go (first_error (λ s. s.start_error) servers)
  where
    managed :
        manage servers
        ≡ map stopped (idents (through (λ s. s.stop_error) servers))
          ++ unless_raised
              (first_error (λ s. s.stop_error) servers)
              (map closed (idents (listeners servers)))
    managed =
        stop_servers_lem (close_servers servers) servers
        ∙ ap
            (λ (steps : List Step).
              map stopped (idents (through (λ s. s.stop_error) servers))
              ++ unless_raised (first_error (λ s. s.stop_error) servers) steps)
            (close_servers_lem servers)

    go :
        (o : Option Error)
        → run_started true servers (map started (idents (through (λ s. s.start_error) servers)), o)
          ≡ (
            map started (idents (through (λ s. s.start_error) servers))
                ++ unless_raised o (
                    map stopped (idents (through (λ s. s.stop_error) servers))
                    ++ (unless_raised
                          (first_error (λ s. s.stop_error) servers)
                          (map closed (idents (listeners servers)))
                        ++ stop)),
            o,
          )
    go none =
        ap
          (λ (steps : List Step).
            (map started (idents (through (λ s. s.start_error) servers)) ++ steps, none))
          (ap (λ (steps : List Step). steps ++ stop) managed
            ∙ append_assoc (map stopped (idents (through (λ s. s.stop_error) servers))) _ stop)
    go (some e) =
        ap (λ (steps : List Step). (steps, some e))
          (sym (append-nil (map started (idents (through (λ s. s.start_error) servers)))))

run_at_once :
    (servers : List Running)
    → run false servers ≡ (
      map started (idents (through (λ s. s.start_error) servers))
          ++ unless_raised (first_error (λ s. s.start_error) servers) stop,
      first_error (λ s. s.start_error) servers,
    )
unfolding run
run_at_once servers =
    ap (run_started false servers) (start_servers_lem servers)
    ∙ go (first_error (λ s. s.start_error) servers)
  where
    go :
        (o : Option Error)
        → run_started false servers (map started (idents (through (λ s. s.start_error) servers)), o)
          ≡ (map started (idents (through (λ s. s.start_error) servers)) ++ unless_raised o stop, o)
    go none = refl
    go (some e) =
        ap (λ (steps : List Step). (steps, some e))
          (sym (append-nil (map started (idents (through (λ s. s.start_error) servers)))))

-- `run` starts the servers up to the first whose start raises. Where one raises, nothing else is done and
-- the exception is raised: the loop stays open. Where none raises and `wait` is given, it stops the servers
-- up to the first whose stop raises, and, where no stop raises, closes those that listen, up to the first
-- whose task is not done; without `wait` it stops and closes none. Then it sets the event, cancels the tasks
-- and closes the loop.
pub run_lem :
    (wait : Bool) (servers : List Running)
    → run wait servers ≡ (
      map started (idents (through (λ s. s.start_error) servers))
          ++ unless_raised (first_error (λ s. s.start_error) servers) (
              if wait
              then map stopped (idents (through (λ s. s.stop_error) servers))
                ++ (unless_raised
                      (first_error (λ s. s.stop_error) servers)
                      (map closed (idents (listeners servers)))
                    ++ stop)
              else stop),
      first_error (λ s. s.start_error) servers,
    )
run_lem true servers = run_waiting servers
run_lem false servers = run_at_once servers
