-- ===== src/Lib.antt =====
-- atasks, a library of asynchronous tasks that are called over a transport: the code under atasks/
-- from the registration of a task to the answer of a call, its two transports, and the worker.
--
-- The program and its parts:
--
-- A namespace holds a codec, a transport, a router and three registries (atasks/namespaces.py,
-- atasks/registry.py). The decorators register a coroutine with the router of a namespace, which
-- returns a stub. A router that is activated subscribes its transport to the names registered. A
-- stub pushes a hop onto the chain of the running task, encodes the arguments and the chain, and
-- gives them to the transport; the router at the other end decodes them, enters the chain, runs the
-- coroutine, leaves the chain, and for an atask sends back the result or the exception, which
-- carries the trace of the chain.
--
-- The files:
--
-- Prelude: the names that all files share, tests on native numbers, lists, Python's
--   `dict`, and the methods of `str` that the program uses.
-- Errors: the exceptions, and methods that change a state and return or raise.
-- Registry: `RegistryItem` and `Manager` of atasks/registry.py (`register`, `names`, `unregister`,
--   `get`), which is also the registry of atasks/namespaces.py.
-- Hop, Frames, Trace: atasks/trace.py. Hop has the records, Frames `_module_paths`,
--   `_filter_roots`, `_is_filtered`, `_frame_info` and the two walks, Trace the context variables,
--   `enter`, `leave`, `push_hop`, `attach` and `get_trace`. Trace.Timestamp is `_format_ts`, with what
--   `datetime` and `strftime` do for a timestamp after 1970, and Trace.Format `_format_frame` and
--   `format_trace`.
-- Codec: `PickleCodec` of atasks/codecs.py, and the values that travel.
-- Transport: the methods of atasks/transport/base.py that a router drives, as a record `Methods`
--   with the promise `IsSubscribing`; Transport.Loopback is `LoopbackTransport`.
-- Transport.Amqp: `AMQPTransport` of atasks/transport/backends/amqp.py. Names has the routing keys
--   and the names of the queues; Requests the table `_awaiting_requests` and the calls of
--   `send_request` that are in flight, as a relation of steps: a call is cut where it awaits, at
--   `publish` and at the future, and a step is one of these pieces, a response, a lost connection,
--   a timeout or a cancellation, in any order; Handlers has the callbacks that the registrations
--   consume with, `_on_message`, `_on_event_message` and `_on_broadcast_message`; Connection has
--   `connect`, `disconnect` and the methods that register and unregister a name, which hold the
--   lock from end to end, so that each is one function. System puts the processes of several
--   transports on one broker: `hand_over`, `serve_request` and `receive` are the pieces of
--   `send_request`, `_on_message` and `_on_response_message` that pass messages on.
-- Router: the life of a `Router` of atasks/router.py over any `Methods`: `register` is
--   `register_atask` and its two counterparts, which differ in the registry alone, `activate_one`
--   and `deactivate_one` are the six methods `_activate_request` ... `_deactivate_broadcast`.
--   Several transports are numbered, and the router has the number of its server.
-- Calls: the way of a call in atasks/router.py: `aioref` is the stub, `send` is the call of
--   `send_request`, `send_event` or `send_broadcast` by kind, which binds its arguments, `send_bound`
--   their bodies, then `on_request`, `on_event`, `on_broadcast` and
--   `call_coro`. The process serves its own `LoopbackTransport`, so the caller and the handler
--   share the state `Process`.
-- Namespaces: atasks/namespaces.py, and what `Codec`, `Transport` and `Router` keep there.
-- Tasks, Refs: the decorators of atasks/tasks.py, and the light references of atasks/refs.py;
--   Tasks.Declarations has the decorators over the routers of all namespaces.
-- Service: atasks/commands/service.py. Service itself is `aiomain`, as the order of what it calls;
--   Service.Specs is `_parse_namespace_spec` and what `main` does with the values of `-N`;
--   Service.HealthHttp is `_parse_health_http`; Service.Watchdog is `_SelfWatchdog`, cut where another
--   thread may come between: an action is the thread that goes on, the event loop that answers, or
--   `stop`; Service.HealthHttp.Server is `_start_health_http`, and Service.Main is `main`.
-- References: atasks/commands/refs.py: the extraction of the references from a syntax tree, and their
--   rendering; References.Generate is `generate` over a disk, and References.Main its `main`.
-- Cli: atasks/cli.py.
--
-- The children of a file that end in other names than an operation's hold its laws; Tests has
-- runs at concrete inputs.
--
-- Bounds and fuel:
--
-- A coroutine is a `Program`: it returns, raises, or awaits a stub and goes on with the outcome. As
-- an atask may await itself, `Calls.run` takes a depth, and what lies deeper is given to `beyond`.
-- Calls.Depth relates the depth to `max_trace_depth`. Numbers are unbounded, as Python's are; a
-- timestamp is a number of microseconds, a timeout a number of any unit.
--
-- Parameters:
--
-- The machine (`find_spec`, the operations on paths, the source line of a frame), the stamps,
-- call sites, frames and tracebacks that the interpreter gives, `pickle` and `asyncio.wait_for`
-- are not code of the repository. What the laws of calls ask of them is `IsFaithful`: what
-- `pickle.dumps` returns is not empty and `pickle.loads` reads it back, and `wait_for` leaves the
-- context variables as the awaited coroutine left them. `AioPika` and `Delivery` are the methods
-- of aio_pika that the transport awaits, each of which may raise; a broker that is `IsReliable`
-- raises nothing. A `uuid4` is one that was not made before, which is a premise of the step that
-- makes it. The name of an exception's class and what `str` makes of it are parameters of
-- `format_trace`. `Services` are the operations that `aiomain` calls, of other modules and of
-- libraries; they are `IsTidy` where the constructors, the two stops and `disconnect` return, and
-- `disconnect` leaves its transport not connected and connects no other. What `argparse` makes of
-- the arguments is a parameter of each `main`, and `Web` is what `_start_health_http` calls in
-- aiohttp. `Host` are `os.path`, `ast.parse`, `repr` and `isidentifier`, and whether the
-- operating system makes a directory and opens a file; a file that was opened is written. `int`
-- is a parameter where a command line has a number, since Python reads the digits of any script.
--
-- Not modelled: of atasks/commands/service.py the systemd client and `_positive_seconds`, which
-- stand on a library and on floating-point numbers, and the signal handler, which sets a flag;
-- setup.py; tasks that run at the same time in one router, each of which has its own copy of the
-- context variables; cancellation outside `send_request` (`CancelledError` is not an `Exception`,
-- and no handler catches it). In `aiomain` a signal is the end of `listen`.
pub mod Prelude
pub mod Hop
pub mod Errors
pub mod Registry
pub mod Namespaces
pub mod Codec
pub mod Frames
pub mod Trace
pub mod Transport
pub mod Router
pub mod Calls
pub mod Cli
pub mod Refs
pub mod References
pub mod Tasks
pub mod Service
pub mod Tests
