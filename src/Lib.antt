-- ===== src/Lib.antt =====
-- A model of levin, a framework for HTTP applications, and proofs about it.
--
-- The program. An application is a list of components, each with settings, hooks and a middleware; it
-- starts them, drops the disabled ones and nests their middlewares round a handler. A server makes a
-- connection for each client. A connection gives the bytes that it receives to its parsers until one of
-- them takes them, runs the handler on each request that the parser returns, and writes what the parser
-- prints of the response. A request carries a scope of attributes, some computed when they are first
-- read; the router resolves its path to a handler by the table of routes.
--
-- The files, and the code that each models:
--   Common.antt: levin/core/common.py. `Request`, `Response`, `Push`; `create_headers_map`; `get`, `set`,
--     `get_attr` and `path` of a request's scope. Common/Proxy.antt is `_HeadersProxy`.
--   Http.antt: levin/core/parsers/http_simple.py. `handle_request`, by its loop `read_lines`, and
--     `handle_response`. Http/Statuses.antt is HTTP_STATUSES; Http/Printing.antt is no code of the
--     repository but a client's printing of a request, against which the parser is stated, and
--     Http/Client.antt is what a client reads off a printed response.
--   Component.antt: levin/core/component.py. `configure`, `get_configure_params`, `_start`.
--   Application.antt: levin/core/app.py. `add`, `start`, `stop`, `configure`, `get_component`;
--     Application/Chain.antt is `_create_handler`.
--   Router.antt: levin/components/router.py. The conditions, `resolve`, `add`, `url`, the middleware;
--     Router/Regexp.antt is PATH_ARG, PATH_REPL and what the patterns use of Python's `re`, Router/Back.antt
--     is BACK_PATH_ARG and `add` of a compiled pattern, and Router/Commands.antt is the commands `list`
--     and `resolve_command`. Router/Regexp/Pieces.antt is a pattern as its user thinks of it, in
--     bytes and arguments, by which Router/Url.antt states `url` and `resolve` together.
--   Connection.antt: levin/core/connection.py. `data_received`, `connection_lost`, `close`, the futures'
--     callbacks, and the coroutines `handle_request` and `handle_push`. Connection/Outcomes.antt has the
--     interface `IsPrinter` of a parser that prints a response whole or not at all.
--   Hyper.antt: levin/core/parsers/hyper.py. `parse_events`, the loop over h2's events, and the streams;
--     Hyper/Parser.antt is `handle_request` with the upgrade from HTTP/1, and Hyper/Send.antt is
--     `handle_response`, with `send_body` for its loop. `HasWindow` of Hyper/Window.antt is what h2
--     documents of its flow control.
--   HttpTools.antt: levin/core/parsers/http_tools.py. The callbacks and `handle_request`.
--   Server.antt: levin/core/server.py. The loop of `run_apps` over its arguments. Server/Serving.antt is
--     `handle_connection`, with the three parsers as one interface of a connection and the response of
--     status 500, which all connections share, as an argument; the files below
--     it follow a request from the bytes that come to the bytes that go; Server/Life.antt is `run`,
--     `_manage` and `_stop`, as lists of the steps that they make; Server/Setup.antt is `Server`,
--     `create_ssl_context` and `run_app`, with `run` of levin/core/app.py.
--   Cli.antt: levin/components/cli.py. `call`, the choice of the command, and the command `components`;
--     Cli/Options.antt is what `get_command_options` reads off a signature, and Cli/Run.antt is `cli_root`
--     and the command `run`.
--   PatchRequest.antt: levin/components/common.py. The lazy attributes of `PatchRequest`.
--   Middleware.antt: what the middlewares share. A `World` is what a call may change: the request, the
--     targets of the profiler and the log; an `Env` holds what is no code of the repository.
--     Middleware/Formats.antt is levin/components/formating.py. Middleware/Template.antt is
--     no code of the repository but `safe_substitute` of Python's string.Template, which it calls; Middleware/Handlers.antt is
--     levin/components/inject.py, concurrent.py and profiling.py; Middleware/Guards.antt is `ErrorHandle`
--     of levin/components/common.py, and limit.py, logger.py and h2.py beside it.
--     Middleware/Hooks.antt is the hooks of these components and the small functions beside them.
--     Middleware/Default.antt is levin/app.py: `default_components`, and `respond_by`, the chain of their
--     middlewares by `create_handler`.
--   Profile.antt: levin/utils/profile.py. `trace` is what `_trace` does at an event of a stack of frames;
--     Profile/Lines.antt is `get_lines`, Profile/Session.antt is `run`, `start_trace` and `stop`, and
--     Profile/Report.antt is `print_result`.
--   Prelude.antt, Bytes.antt, Dict.antt and Result.antt: what all share. Python's `bytes` and `str` are
--     lists of numbers, a `dict` is an association list in the order of insertion, and a call that may
--     raise returns a `Result`.
--
-- Conventions. State is passed explicitly: a method takes the object and returns it beside its result.
-- An object's identity is a number, where the code compares objects. What is not code of the repository
-- enters as a parameter: the settings of a component, the functions behind lazy attributes, the parsers
-- of a connection and the handler. The transport of a connection is the list of what is written to it.
--
-- Fuel. `sweep`, the loop over a connection's futures, from which the callbacks remove and inside which a
-- callback may close the connection, has one round more than there are futures. `send_body`, the loop
-- over a response's body, has one round more than there are bytes, each round sending one at least or
-- being the last. All other loops are recursions on lists.
--
-- Not modelled. A coroutine runs from its start to its end in one step, so what happens between two
-- awaits of one handler is left out, and pushes run one after the other. Components that the hooks of
-- other components add or remove are left out. Constructs of `re` other than those of PATH_REPL, an
-- optional byte and "." are left out: `compile` refuses them. So are the fields of `str.format` other
-- than plain names, for which `format_from` raises ValueError, and the status of a response that is no
-- number, for which 0 stands. What asyncio does inside `create_server`
-- has no model here. levin/core/typing.py and the packages' `__init__.py` have no behaviour; run.py,
-- run_should.py, concurent.py and tests/ are examples and tests. The libraries h2, httptools, ssl,
-- argparse, logging, concurrent.futures, tracemalloc, linecache, json and better_exceptions are
-- parameters, or the calls of them are data.
pub mod Prelude
pub mod Bytes
pub mod Result
pub mod Dict
pub mod Common
pub mod Http
pub mod Hyper
pub mod HttpTools
pub mod Server
pub mod Cli
pub mod Middleware
pub mod Profile
pub mod Component
pub mod Application
pub mod Router
pub mod Connection
pub mod PatchRequest
