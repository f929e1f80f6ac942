-- ===== src/Lib.antt =====
-- tracearr correlates the webhooks of media servers' helpers (Overseerr, Sonarr, Radarr, download
-- clients) into one trace for each requested film or episode. Its core is the package
-- internal/correlate: receivers and pollers hand events to an engine, which keeps a record of each
-- trace in flight in a store, and tells a span builder and a metric sink what happened.
--
-- The files and the code that they model:
--   Prelude: shared names. Prelude/Tests, Lists: tests and lists. Prelude/Int: Go's int and int64,
--     with two's complement where the code adds. Prelude/Map: Go's maps as association lists.
--     Prelude/Text: the %d of fmt and strconv.Atoi. Prelude/Clock: time.Time as nanoseconds since Go's zero time, and time.Duration.
--   Event: internal/correlate/event.go (MediaKey, Event, SeriesKey and the enumerations).
--   Store: internal/correlate/store.go. Store/Records has TraceState and ClosedTrace; Store/Interface
--     the interface Store as a record of operations, and what the engine may rely on of its
--     documentation as three records of laws; Store/Memory is memoryStore, one function per method. Each method holds the mutex,
--     so that it is one step. Store/Listing: what a loop over the records collects.
--   Store/Disk: what internal/correlate/store_bolt.go lays out on disk. Disk/Keys has encodeMediaKey and
--     decodeMediaKey, Disk/Json and Disk/Codec the JSON of records, Disk/Unix the instants of the
--     duplicates, Disk/Buckets bbolt as a parameter with its documentation as laws, Disk/Loading the loops
--     of load; Decimals, Scans and KeyRoundTrip are proofs.
--   Store/Bolt: boltStore, one function per method, and OpenBoltStore. Bolt/Index, Records and Recall: it keeps the
--     interface's promises, as the memory store does. Bolt/Mirror: what it means that memory mirrors the disk,
--     and the operations as steps; Mirrored and Steps: each step keeps it; Load, Entries, Opened and Reopen: what the next
--     process finds; Bolt/Dedup: duplicates.
--   Spans/Schema: the constants of internal/spans/schema.go. Spans/Builder: OTelBuilder of
--     internal/spans/builder.go, with the OpenTelemetry SDK's tracer as a parameter.
--   Parsers: internal/source, from the decoded payload to the events; a file for each source, and the
--     proofs in Requests, Switch, Arr, Downloads and Ids.
--   Config: internal/config/config.go; Config/Secrets and Config/Loads: what Load accepts.
--   Receiver: internal/receiver. Receiver/Auth is auth.go, Receiver/Handlers the handlers of handlers.go,
--     Receiver/Routes the Server with its routes, Receiver/Accepts what the handlers have checked,
--     Receiver/Served what any requests leave of the engine's invariants, Receiver/Authentic what a request
--     must carry, by its path, and Receiver/Unauthentic what the other requests do.
--   Exporter: internal/exporter/otlp.go; Exporter/Headers: parseHeaders. Log: internal/log/log.go.
--   Metrics: internal/metrics, from the calls that the engine's state lists to the instruments.
--   Program: run of cmd/tracearr/main.go up to the server, which puts the parts together; Program/Startup:
--     the state in which it begins. The janitor is in Engine/Drains.
--   Pollers/Prowlarr: the tick of internal/poller/prowlarr.go, after the HTTP exchange. Pollers/Cursor:
--     what its cursor does. Pollers/Queue: the tick of internal/poller/queue.go; Pollers/Repeats: that it
--     does not report twice. Pollers/Loops: the pollers and their loops, as the list of what the ticks get.
--   Engine: internal/correlate/engine.go. Engine/State is the Engine struct and resolveTrace.
--     Engine/Calls has the calls of Builder and MetricSink, which the state lists, newest first.
--     Engine/Requests, Downloads, Grabs and Imports have the handlers on..., with a function for each
--     part of a handler; Titles has EmitProwlarrSearch, Queue NoteQueueIssue, Lifetime Restore and
--     Sweep, Process the entry Process, Attributes the lists of attributes.
--   Engine/Runs: any sequence of events, polls and sweeps. Every entry holds the engine's mutex, so that
--     each interleaving of the goroutines is such a sequence.
--     Engine/Restart: such a sequence may start from what Restore makes of an earlier process's store;
--     Engine/Recovery: that store may be the Bolt store, opened on the disk that the process left.
--   Engine/Records, NoLeak, Coherence, OpenSpans, Writes, Gauges and the others: proofs, by topic.
--   Examples: runs at concrete inputs.
--
-- The engine is modelled over any store, any builder whose answers are a function of the calls made to
-- it, and any strings.ToLower on runes. Every loop is over a list or a map;
-- only the decimal digits of a number take fuel, one more than the number, which value-digits shows to
-- be enough.
-- Strings are compared as texts. A loop over a Go map, whose order Go leaves open, runs over the list; the
-- code's loops of this kind filter, save lookupByTitle, which takes some match.
-- On disk, a number is taken to be an int where Marshal wrote an int, and a key that can be encoded has
-- no bar in its type.
--
-- Not modelled: log lines; the JSON text of the episodes of a release, which stays the list of episodes;
-- the lock on the database file; flags, signals and the shutdown of the process, and its goroutines, for
-- which any sequence of the engine's entries stands. The SDK of OpenTelemetry, bbolt, slog's writer, the
-- decoding of payloads and of the YAML, the environment and files, X.509, time.Parse, strings.ToLower,
-- strings.TrimSpace and the HMAC with SHA-256 are parameters.
pub mod Prelude
pub mod Event
pub mod Config
pub mod Store
pub mod Spans
pub mod Engine
pub mod Parsers
pub mod Receiver
pub mod Exporter
pub mod Log
pub mod Metrics
pub mod Program
pub mod Pollers
pub mod Examples
