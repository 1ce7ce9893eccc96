-- ===== src/Lib.antt =====
-- A verification library for Astraship, the platform around the Felix agent kernel. It models the
-- Python code below src/astraship and proves what its parts promise.
--
-- The program starts a Felix process and talks to it in newline-delimited JSON-RPC. A session takes
-- the notifications of the connection, keeps those that are its own, mirrors them to a store and hands
-- them to a consumer. Felix in turn asks for tools; a registry validates the arguments of a call,
-- passes a gate that bounds and orders the executions, and turns whatever happens into a result.
--
-- Which file is about what, with the paths of the code from src/astraship:
--
--   Base, Base/...            the library names that all share; tests on numbers, lists and texts,
--                             Python's integers and the order of texts
--   Cli                       cli.py: the commands, with Output and Status below it
--   Config                    config.py; below it Resolution
--   Errors                    errors.py, and the built-in exceptions that the code catches; an
--                             exception is a value, `Result` is what a call does, `raise_if` a guard
--   Value, Value/...          Python values: JSON and other objects, floats, comparisons of numbers;
--                             `Json` is the interface to the module json, with its laws, and
--                             Value/Json/Sample an instance
--   Tools/Gate                _ExecutionGate of tools/registry.py; below it exclusion, fairness and
--                             progress
--   Tools/Schema              tools/schema.py: Keywords (_TYPES, _KEYWORDS, _property_path), Node
--                             (validate_schema), Check (validate_arguments), and Objects,
--                             Depth, Termination, and Conformance with what a schema
--                             means as a relation
--   Tools/Types               tools/types.py
--   Tools/Builtins            tools/builtins.py: the three tools; below it Paths (pathlib and the tests
--                             on paths), Calls (builtin_file_tools), and what the tools guarantee:
--                             Contained, Writing, Reading, Listing and Accepted
--   Tools/Registry            ToolRegistry of tools/registry.py: register, schemas, execute; below it
--                             Registration and Ordering (register, schemas), Normalize
--                             (_normalize_json), Execution, Batch (execute_many) with
--                             Order and Ids
--   Kernel/Client             the state of FelixClient (kernel/client.py); Kernel/Client/Server the
--                             requests of Felix, with Steps (any interleaving of their tasks),
--                             Cancellation and Honesty below it; Kernel/Client/Replies
--                             counts their responses; Kernel/Client/Requests the client's
--                             own requests, with Correlation and Endings below it;
--                             Kernel/Client/Handshake the answer to `initialize`;
--                             Kernel/Client/Lifecycle start and close, with Reaping below it;
--                             Kernel/Client/Reader _read_stdout and the queues of notifications,
--                             with Queues and Delivery below it; Kernel/Client/Stderr
--                             _read_stderr, with Tail below it
--   Kernel/HostTools          kernel/host_tools.py; below it Envelope
--   Kernel/Protocol           kernel/protocol.py; below it Decoding, Refusals and RoundTrip
--   Persistence               persistence.py; below it Lines (the lines of a text file), RoundTrip,
--                             Query and Listing
--   Session                   session.py: one function for each operation; Session/Delivery runs its
--                             tasks in any interleaving, with Cases, Order and Mirror below it
--   Transcript                Kernel/Client/Reader, Session and Persistence together: the pipe of Felix,
--                             a session that is subscribed to it, and its transcript; below it Queue,
--                             Linked, Complete and Drains
--
-- Concurrency: a coroutine is atomic between two awaits, so that each such stretch is one event of a
-- step function, and a theorem about all lists of events is one about all interleavings. What the
-- world decides is an argument of the event or of the definition: how a write ends, what the client
-- answers, what a tool does, the clock.
--
-- The gate and the execution of a call are separate models: the gate is about the moments at which a
-- coroutine enters and leaves `hold`, and `execute` is about what happens between them. The server
-- tasks and the client's own requests share the state of the client and have a step function each.
--
-- Bounds: Python integers have no bound and are `ℤ`. A float is a dyadic fraction or one of nan and
-- the infinities; `math.isfinite` of an integer that no float holds raises. The recursion over a
-- schema runs on fuel that stands for Python's recursion limit: where it is used up, the model raises
-- a RecursionError, as the interpreter does. The recursion over a value is structural and has no
-- limit.
--
-- Not modelled: the Felix process and its streams, how a close interleaves with a start or with
-- the other tasks of the client (kernel/client.py), and the parser of the command line (build_parser of
-- cli.py): the parsed namespace is an argument. Regular expressions, shlex, the text of json and the resolution of
-- symbolic links are parameters. The files of the built-in tools are a function from paths without
-- symbolic links to files and directories, on a POSIX platform; a text is one of Unicode scalar
-- values, without lone surrogates. A Python value is a tree, so that it cannot hold itself.
pub mod Base
pub mod Config
pub mod Errors
pub mod Value
pub mod Tools
pub mod Kernel
pub mod Persistence
pub mod Session
pub mod Cli
pub mod Transcript
