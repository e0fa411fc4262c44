-- ===== src/Lib.antt =====
-- rust-brain: the tenant isolation of its graph queries, the search in its call graph, the events that its
-- tenants' clients are sent, the table of its agent sessions and the relay of their events, the redaction
-- of its logs, the limit on failed logins, the watchdog of its Kafka consumers, the reconciler of its
-- ingestion runs, and the features of the crates that it expands.
--
-- A request of a tenant reaches the graph database through crates/rb-storage-neo4j: the query is
-- checked for write clauses where it has to be a read, the tenant's label is put into each of its node
-- patterns, and the result is sent to Neo4j. The label, and the name of the tenant's Postgres schema,
-- come from the tenant's UUID. crates/rb-query asks for the callers and the callees of an item by such
-- queries, one hop at a time. crates/rb-sse keeps the last events of each tenant and sends them to the
-- tenant's clients, which name the last event that they have when they come back.
-- crates/rb-auth counts the failed logins of an address.
-- services/agent-runner runs the agents of the tenants, within caps per tenant and per node. Each line that
-- an agent writes goes through crates/rb-secrets, which takes the secrets out, and through the normaliser;
-- the event relay sends the events to services/control-api in batches. The workers of the ingestion
-- pipeline read Kafka through crates/rb-kafka-health, which replaces a consumer that is stuck;
-- services/control-api publishes the runs again that nobody has started; the expand worker asks
-- crates/rb-feature-resolver which features of a crate to expand it with.
--
-- Parts
--   Tenant            crates/rb-tenant/src/lib.rs: `SchemaName::new` is `new_schema_name`,
--                     `TenantCtx::new` is `new_tenant_ctx`; the others keep their names. A UUID is the
--                     list of its 16 bytes, a string the list of its bytes.
--   Cypher.Label      crates/rb-storage-neo4j/src/label.rs.
--   Cypher.WriteCheck crates/rb-storage-neo4j/src/write_check.rs. A query is the list of its bytes.
--                     `turn` is one pass through the body of the `while` loop, by the state.
--   Cypher.Inject     crates/rb-storage-neo4j/src/injector.rs, in the same way. The mutable variables of
--                     `inject_tenant_label` are the record `Context` and the output; `Inject.Node` has
--                     `scan_bracket`, `collect_node_pattern` and `splice_label`. The output is a list of
--                     code points, since the source pushes each byte as a `char`.
--   Traversal         crates/rb-query/src/graph/traversal: `Types` is types.rs, `Hop` is bfs.rs, `Fetch` is
--                     mod.rs and `Paginate` is pagination.rs.
--   Sse               crates/rb-sse/src: `Ring` is the `RingBuffer` of broadcaster.rs and the `SseEnvelope`
--                     of envelope.rs, `Broadcaster` is the `PerTenantBroadcaster`, `Stream` is
--                     `build_inner_stream` of stream.rs. Times are milliseconds, and arguments.
--   Sessions          services/agent-runner/src/session: `Caps` is caps.rs; `start_session` is the part of
--                     the function up to the permit in `acquire`, `count_start` the rest of `acquire`,
--                     `abandon` an early return behind it, and `commit` the block that locks the table;
--                     `natural_exit` and `terminate_session` take a session out of the table,
--                     `release_removed` is what either of them does to the count later, and
--                     `drop_handle` the drop of a permit.
--   Login             crates/rb-auth/src/rate_limiter.rs. Times are nanoseconds, and arguments.
--   Features          crates/rb-feature-resolver/src: `push_requested`, `seed_defaults` and
--                     `collect_workspace_unified` are the stages of `resolve` before its loop, which is
--                     `expand`. A path is the list of the strings that were joined.
--   Watcher           crates/rb-kafka-health/src/watcher.rs: `turn` is a pass of the loop of `next`, and
--                     `inspect` what it does with the result of a poll. Times are nanoseconds.
--   Redact            crates/rb-secrets/src/redact.rs. A line is the list of its bytes; `scan` is each of the
--                     loops over `find`, byte by byte, by what it writes where a match begins.
--   Relay             services/agent-runner/src: `Events` is normalizer.rs, with the event type of
--                     crates/rb-schemas/src/stream_json.rs; `Relay` itself is event_relay. `wake_up`,
--                     `goes_on` and `take_batch` are the three locks of `flush_loop`.
--   Output            services/agent-runner/src/session: output.rs, one line at a time, redact.rs and seq.rs.
--   Jobs              services/control-api/src/jobs/mod.rs. A query is a function on the list of the rows.
--
-- How the theorems are built
--   Cypher.WriteCheck.Grammar and Cypher.Inject.Grammar describe queries as sequences of lexical items;
--   Tokens, Patterns, NodePatterns and Words run the scanner over one item each, and Scoping and Scanned
--   put them together. Cypher.Inject.Language says independently which words begin and end a path clause
--   and what a node pattern declares, Reading that the code agrees, and Isolation has the outcome.
--   Copies, Edits and Insertions are about byte strings, whether or not they are made of items.
--   Traversal.Levels is breadth-first search over names alone; Hops, Direction and Rounds say what a hop
--   finds, in either direction; Reach, Layers and Search carry the levels through the loops of `Fetch`,
--   and Shortest states the outcome. Pages, PageNodes and Cursors are about `paginate`.
--   Sse.Ring.History says what the ring has of all that was pushed, and Retention how long. `publish` is
--   two steps, `store` and `send`; Sse.Broadcaster.Gapless puts the steps of any publishers, in any
--   order, before, between and after the two halves of a subscription.
--   Features.Spec has the documented rules as an inductive predicate; Queue, Members and Seeds say what each loop
--   adds to the queue, Expand what the expansion makes of it, Total that it ends.
--   Redact.Cuts is about lines of which segments were replaced by a placeholder: what is apart from the
--   placeholder can only be where it was. Decoding says what percent-decoding keeps. Output.Clean carries
--   the outcome through the tasks that read the agent's streams, up to the reader of the JSON lines.
--   Relay.Fifo has senders and the loop in any order; Jobs.Once has the queries of any number of instances.
--   Sse.Stream.Filter follows the polls of a stream, and Selection says which events they give.
--   Sessions.Steps is the step relation over whole tables, Invariant goes by induction on it, and Races
--   has the start under an id that is in the table.
--
-- Bounds and fuel
--   The two scanners run on fuel, one more than the number of bytes, and return `none` without it; each
--   turn takes a byte, so that never happens, which is a theorem of each. The loop of the traversal runs
--   `opts.depth` times, as in the source. `poll_all` makes a given number of polls of a stream, and the
--   watchdog's `next` runs on the passes that are given. `expand` goes down on the 4096 iterations of
--   the source and on the queue. Counters of the watchdog are `u32` and `u64`, with the source's
--   saturation. Other numbers have no upper bound here: `start + opts.limit` in `paginate` does not
--   overflow unless the limit is close to the largest `usize`.
--
-- What stands outside
--   The Neo4j driver is a parameter, `Database`: for each of the five queries a function from a name to
--   the rows or an error. So the database is taken not to change during one search, and for each page of
--   it. In Traversal `HashSet` and `HashMap` are lists that are only asked for members and for the
--   first entry of a key. No lock is poisoned. tokio's `broadcast` channel is the parameter
--   `Broadcast`, with the law that a receiver which does not lag receives what is sent after it
--   subscribes, in order; the results of `recv` are an argument of the stream, and so are what serde_json
--   reads in an event's data and the advisory event. The file system and the TOML parser of the
--   resolver, the consumer and the factory of the watchdog, the runtime adapter, serde_json and the
--   HTTP client of the relay and the Kafka producer of the reconciler are arguments too. Of Postgres
--   the four statements of the reconciler are translated, each as one step. Logging, serialisation,
--   the base64 of the cursor (its offset is kept as a number) and the other crates and services are
--   not modelled.
pub mod Common
pub mod Tenant
pub mod Cypher
pub mod Traversal
pub mod Sse
pub mod Sessions
pub mod Login
pub mod Features
pub mod Watcher
pub mod Redact
pub mod Relay
pub mod Jobs
pub mod Output
pub mod Tests
