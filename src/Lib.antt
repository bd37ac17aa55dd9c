-- ===== src/Lib.antt =====
-- Durable Streams: append-only streams over HTTP, one actor with one SQLite database for each
-- stream (src/ of the repository).
--
-- A client creates a stream by PUT, appends by POST, reads by GET from an offset, and deletes it.
-- A stream may be a fork of another one: it inherits the source's messages up to an offset, reads
-- them from the source's actor, and holds a reference there as long as it lives.
--
-- The parts and their files:
--   Prelude     tests, lists, integers of 64 bits, texts as bytes and their order, results
--   Protocol    src/protocol.rs, and the parsers of src/actor.rs: Decimal (printing and parsing of
--               numbers by the standard library), Offset, Integer, Cursor, Utf8 (also from_utf8_lossy),
--               Content (content types), Http (requests, responses and bridged headers), Json, Sse
--   Store       src/store.rs: Tables (the database and its statements), Meta (the row `meta` and
--               expiry), Append, Range (read_messages_range), Producers, Forks, Platform,
--               Rows (columns and bound parameters, parse_meta), Schema (ensure_schema)
--   Actor       src/actor.rs and src/actor/: Types and Exec (the records, the world of an actor and
--               its effects), Producer, Tags, Maintenance, Recovery (run_maintenance), Lifecycle
--               (HEAD, DELETE, expiry), Fork (fork_acquire, fork_release), Fork.Create (the
--               transaction of create_fork) and Fork.Create.Run (the rest of it), Write (the
--               transaction of an append), Write.Post (handle_post, handle_close_only), Write.Put
--               (the transaction of handle_put) and Write.Put.Requests (its headers), Read
--               (read_stitched, read_snapshot) with Read.Query, Read.Reply, Read.Events, Read.Get and
--               Read.Pump (pump_sse), Dispatch (on_fetch_response, on_start and the actions), Log (an
--               abstract log of appends, to which the events of an actor are compared)
--   Facade      src/facade.rs: HeaderMap, Upstream (the actors' client and the crates the facade
--               uses), Reply (its answers), Body (collect_bounded_body), Bridge (headers of the two
--               bridges), Routing (paths and keys), Handle (handle_facade)
--   Server      Serverless (src/serverless_http.rs), Config (src/main.rs: the port and the
--               configurations), Tabs (src/lib.rs: registration and inspector tabs)
--   Tests       inputs at which the theorems are applied
--
-- State. `Db` holds the tables, each a list of rows in the order of its primary key; `World` is one
-- actor with its database, its watch channel, its alarms and the rest of the world. A transaction
-- is a function from `Db` to a result with a `Db`; a handler is a function of the world that keeps
-- the changes made before an error. Handlers of requests and of fork actions hold the actor's lock,
-- so no other handler runs between their steps. Reads and maintenance hold no lock: where a read
-- waits, between the steps of run_maintenance, and while a source answers for a fork intent,
-- `Env.during` changes the tables arbitrarily. Other actors are the fields `fork_acquire`,
-- `fork_release` and `read_range` of
-- `Env`, with a state of their own. The libraries (base64, chrono, serde_json, uuid) are the fields
-- of `Platform`; the actors' client and the libraries of the facade are those of `Upstream`; the
-- database under the migrations, the serverless runtime, the url crate and the disk are `SqliteDb`,
-- `Runtime`, `UrlCrate` and `TempDirs`. A theorem that relies on one of them names what it needs among
-- its hypotheses. What a connection of server-sent events meets in time (a deadline, an abort, a
-- change of the tables, an answer of the sink) is a list of turns, which `pump_sse` takes one by one.
--
-- Bounds. Offsets are texts of two numbers with sixteen digits; `limit` is 10 ^ 16, below which
-- printing keeps the order and `u64` does not overflow. `read_stitched` runs on fuel: one unit more
-- for each time that the stream is replaced while its source is read, so that one unit is enough
-- for a stream that is not replaced. `decimal` runs on fuel above its number, and `chunks` on the length of
-- its bytes.
--
-- Not modelled: the start and the end of the servers in src/main.rs, and the cancellation of a
-- serverless request whose answer is dropped: both are calls of libraries. The decoding of rows
-- other than that of `meta`: where these tables are read, their rows are those that were written.
-- The two queries of one `read_messages_range` see the same tables. Failures of an actor's own
-- database and scheduler (`begin_mutation`, `commit`, `schedule`) outside the migrations: a theorem
-- that says that a handler succeeds is about an actor whose database works. `Response::from_parts`
-- is taken to accept the headers that the actor writes. What maintenance, which holds no lock, does
-- between the steps of a handler. Numbers of messages and of bytes are not bounded by the machine's
-- memory.
pub mod Prelude
pub mod Protocol
pub mod Store
pub mod Actor
pub mod Facade
pub mod Server
mod Tests
