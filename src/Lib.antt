-- ===== src/Lib.antt =====
-- cursedns: a recursive DNS server in Go, modelled part by part.
--
-- The parts and how they interact. `Server` (resolver/server.go) unpacks a message, hands the query
-- to a `Handler` with a `Helper`, waits for the result or the deadline, keeps a trace of the request
-- and sends one reply. The helper (resolver/helper.go) looks a name up in the shared `Cache`
-- (resolver/cache.go), asks nameservers on a miss, filters what they answer to the zone that they
-- are trusted for, and caches what is left. The handlers (handlers/) decide what to look up: a fixed
-- answer, a walk from the root down, or the turns of a language model. `TraceStore`
-- (resolver/trace.go) serves the traces over HTTP.
--
-- Which file models what. Definitions keep the names of the source, in snake case.
--   Prelude     tests, lists, Go's maps, case folding, JSON; no code of the program
--   Dns         records and messages of github.com/miekg/dns; Dns/Names its functions on names
--   Resolver/Types        resolver/types.go, errors, and the lines of traces
--   Resolver/Cache        `Cache`; Cache/Spec a cache that never deletes, as the specification
--   Resolver/Bailiwick    `filterInBailiwick`, `hasNS`, `negativeTTL`, `groupByNameType`
--   Resolver/Request      `Helper`, and the state of `requestHelper`
--   Resolver/Helper       `requestHelper.Lookup`, `RootHints`, `Trace`; Helper/Steady, as the
--                         specification, what it finds where the nameservers do not change
--   Resolver/RootHints    resolver/roothints.go
--   Resolver/TraceStore   `TraceStore`: `Put`, `Get`, `ServeHTTP`; TraceStore/Ids
--                         `newTraceID`; TraceStore/History any sequence of calls
--   Resolver/Server       `handleMessage`, `sendReply`; Server/Goroutine its goroutine;
--                         Server/Udp `serveUDP`; Server/Tcp a connection among the others;
--                         Server/Accept the loops of `serveUDP` and `serveTCP`; Server/Frames
--                         `serveTCPConn`; Server/Listen `ListenAndServe`
--   Handlers/Recursive    `RecursiveHandler`; Recursive/Records its functions on records;
--                         Recursive/Leads and Recursive/Answers, as the specification, how the answers
--                         of a helper lead from the root to an answer; Recursive/Delegates and
--                         Recursive/Follows how those of the nameservers do
--   Handlers/Static       `StaticHandler`
--   Handlers/Texts        `parseNameServer`, `geminiResolveNameservers`
--   Handlers/Payload      what `GeminiHandler` writes to the model and reads from it, the structs of
--                         handlers/gemini.go; Payload/Marshal and Payload/Unmarshal their JSON;
--                         Payload/Schema `geminiSystemPrompt` and `geminiResponseSchema`
--   Handlers/Gemini       `GeminiHandler`; Gemini/Turns its loop; Gemini/Talks, as the
--                         specification, the dialogues that end in an answer
--   Handlers/Interactive  `InteractiveHandler`: `dispatch`; Interactive/Desk its loop;
--                         Interactive/Screen the texts it prints
--   Main                  `run` of main.go, from the flags to the server; Main/Run from there to
--                         the exit code; Main/Serving the server with the recursive handler and its
--                         helper, where the handler is in time
--   Samples, Tests        concrete names, networks, messages and runs
-- The child modules that are not listed hold the proofs about the part they stand in.
--
-- State. A function that changes state takes it and returns it. `State` of Resolver/Request is the
-- shared cache, the lines of the request and a world, which `Env` reads: clock, context, network,
-- the calls that other requests make on the cache between two calls of this one, and the order in
-- which Go visits a map. A mutex in the source makes one step of an operation of the cache or the
-- trace store. The handlers are written against an abstract `Helper` over any state.
--
-- Interleavings. A goroutine that runs `handleMessage` takes two steps: up to the start of its
-- handler, and from the result or the deadline on. Between any two steps those of others come, and
-- the handlers do anything to what they share; within a step only the trace store is shared, which
-- has a mutex. The wait for the operator is a step relation too (Interactive/Slot).
--
-- Numbers are naturals; times and durations are in nanoseconds, TTLs in seconds. `int` and `int32`
-- settings of `GeminiHandler` are bit patterns with the wrap-around written out. Case folding is that
-- of ASCII letters, which are what names hold.
--
-- Loops. Those over lists are structural. `filter_answer` and `chase` run on one more than the
-- length of the answer, as each round takes records away or is counted; hops, restarts, glue depth
-- and turns count down from the limits of the source; the loop on a TCP connection runs on one more
-- than the bytes, of which a message takes two at least.
--
-- Parameters, with what the code relies on as named laws: names (`Names`, `IsNames`) and messages
-- (`Wire`, `IsWire`) of miekg/dns, the environment of a lookup (`Env`), of a request (`Host`), the
-- client of the model (`Client`), the reading and writing of texts (`Texts`), and the system that
-- `run` of main.go asks for sockets and for the end of its context (`Process`).
--
-- Not modelled: logging; the source of random bytes; the text of a JSON value; the greeting and
-- the prompt of the terminal; how a signal ends the context; what the HTTP server does with a
-- connection, apart from `ServeHTTP`; and the elements of an array that
-- `json.Unmarshal` reads twice under one key.
pub mod Prelude
pub mod Dns
pub mod Resolver
pub mod Handlers
pub mod Main
pub mod Samples
pub mod Tests
