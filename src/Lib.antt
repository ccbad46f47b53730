-- ===== src/Lib.antt =====
-- Dust monitoring: robots (AMRs) send dust measurements and camera frames over the LOAS protocol;
-- the gateway stores them, PoolerTran turns the frames of a waypoint into one decision record, the
-- decision agent decides it, and the egress gateway writes it to the LOAS database. A cleaner
-- keeps the storage small.
--
-- Which file models which part, with the paths from the repository's root:
--   Loas: SocketDaim/libs/gw_proto/gw_proto. DustFraming and CctvFraming are codec/loas/dust_framing.py
--     and cctv_framing.py, with `struct` as lists of bytes (Words). DustServer and CctvServer are
--     `_on_connect` of transport/loas_dust_server.py and loas_cctv_server.py: a run over the bytes
--     that the peer sends before it closes, with the frames handed on and the reason of its end.
--     DustXml is codec/loas/dust_xml.py, and DustTags and DustRevisions are about its tags. Store and
--     Gate are the handlers of SocketDaim/ingestion_gateway/handler for this protocol,
--     loas_dust_handler.py and loas_cctv_handler.py, on the frames of both listeners in one order.
--     Their rule, `should_collect` of waypoint_gate.py, is a parameter: that module does not parse (a
--     SyntaxError at its line 66), and main.py imports the handlers that import it, so that the
--     ingestion gateway does not start before it is mended. What is said of its handlers and of its
--     connections is said of their code as it is written, for whatever rule.
--   Gateway: Wire is gw_proto/framing.py with the message types of messages.py; Correlator is
--     SocketDaim/ingestion_gateway/correlator.py.
--   Ingest: the standard protocol of SocketDaim/ingestion_gateway. Message is messages.py and
--     codec/standard.py of gw_proto, Session is session.py, Tables are the statements of repository,
--     Video and Sensor are the handlers, Dispatch is the dispatcher of main.py in the loop of
--     gw_proto/transport/server.py. Chunks has the specification of an upload: what was received last
--     under each number.
--   Transfer: PoolerTran/src/poolertran. Tables is the state (both databases and the poller's fields),
--     Queue is repository/queue_repo.py, Response and Batch are poller.py up to `_handle_failure` with
--     repository/decision_producer.py, Transition is `_check_waypoint_transition`, `_sweep_stale` and a
--     round of `run`. Floats is the order of Python's floats, as a parameter.
--   Agent: decision_agent/src/decision_agent. Judge is judge.py, Roles is role_resolver.py, Records is
--     repository/decision_repo.py, Poller is poller.py.
--   Egress: SocketDaim/egress_gateway. Row and Sender are sender.py with the repositories, Outbox is
--     outbox.py, Service is a tick of poller.py and `_drain_outbox` of main.py.
--   Cleaner: SocketDaim/cleaner. Videos is `run_all` of cleanup.py, Frames is its two purges of frames,
--     Service is the loop of main.py.
--   Charts: Dumopro_Data_Analysis_WebApp. Buckets and Redis are buckets.py and redis_client.py of
--     libs/dumopro_core, Freezer and Task are freezer.py and station_task.py of apps/poller, Broadcaster
--     is apps/api/services/sse_broadcaster.py.
--   Prelude: Boolean tests, lists, texts, integers and sorting that the parts share. The modules
--     below a part hold its proofs, named for what they prove; Tests holds runs.
--
-- How they interact: each part works on tables that the others fill, so a part's state is its tables,
-- a statement is a function on them, and a handler is the composition of its statements in the order
-- of the code. An exception is a value: an Option, a sum type, or a record of outcomes. Times are
-- microseconds and ids are natural numbers. A run of the cleaner's retention has one NOW(). Where SQL leaves an order open, the table's is taken.
--
-- Code outside the repository is a parameter: the REST call and the image files (Transfer.Batch.Env),
-- Python's floats and their printing, the answers of MariaDB (Egress.Sender.World), the disk
-- (Cleaner.Frames.Disk), JSON, the clock and the writes of the ingestion gateway (Ingest.Handlers.World),
-- ElementTree, the decoders and the casts of the XML (Loas.DustXml.Python), the statistics of a bucket
-- (Charts.Task.Env), the locks of other consumers and the collation of the database.
--
-- Fuel: a listener gets one round for each frame or byte of its stream and one more, and the theorems
-- about it say that this is enough; a connection of the standard protocol gets one turn for each byte
-- and one more. The loop over expired videos gets one round for each row and one
-- more. The purges of frames count their own rounds, 1000 and 100000, as the code does.
--
-- Not modelled: sockets, the heartbeats that a timer of the server writes between the answers,
-- logging, settings and process start; the timers and the NOTIFY wake-ups, which say when a round runs and not what it does; the admin pages; the REST payload; the client of
-- gw_proto; of Dumopro, the start of the poller, the candles, the routes and the regression. Of the
-- JSON header of a chunk, fields of other types than `VideoChunkMeta` declares are left out, and of the
-- database of the ingestion gateway, that it is down.
pub mod Prelude
pub mod Loas
pub mod Transfer
pub mod Agent
pub mod Egress
pub mod Cleaner
pub mod Gateway
pub mod Ingest
pub mod Charts
