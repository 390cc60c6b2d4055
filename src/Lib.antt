-- ===== src/Lib.antt =====
-- TACTICAL CORE: the parts of the backend that keep events, deliver them, run their sources and
-- read their audio. Paths are from the root of the repository.
--
-- How the parts interact. A source adapter is polled by a runtime thread, or an ingress endpoint
-- hands it one raw event; the event goes through the pipeline into the durable event log, together
-- with one delivery record for each consumer. The delivery dispatcher claims the records and calls
-- the consumers; the catch-up projects the log into the entity store and advances a checkpoint; the
-- health of the runtimes and of the projection is read from that state. The audio plane parses RTP
-- packets, tracks their stream, decodes A-law and cuts the sound into transmissions. The operator's
-- view classifies events by severity rules.
--
-- Delivery: backend/app/event_delivery.
--   Delivery/Row: outbox_model.py, a record and the SQL statements on the table, a list of rows.
--   Delivery/Outbox: outbox_repository.py, `SQLAlchemyOutboxRepository`; a method that takes the
--     table and returns it. The clock's readings and `uuid4` results are arguments.
--   Delivery/Dispatcher: delivery_dispatcher.py, with callbacks that act on a world and may raise.
--   Delivery/Ledger: plugin_idempotency.py and plugin_idempotency_ledger.py.
--   Delivery/Trace, Budget, Keys, Schedule, Claim, Take, Settle: runs of the methods and what they
--     keep.
-- Projection: backend/app/event_repository/durable and backend/app/projection.
--   Projection/EventLog: sqlalchemy_event_repository.py and durable_event_model.py; its child
--     Deliveries has `save_with_deliveries`, its child Sequence the order of the log.
--   Projection/CatchUp: catch_up.py and checkpoint.py; Resume and Skipped are about its passes.
--   Projection/Health: recovery_health.py; Backlog is about its state after a pass.
-- Pipeline: the way of an event from a source to the log and its consumers.
--   Pipeline/Effects, Setup, Process: event_pipeline/event_pipeline.py under backend/app,
--     `EventPipeline` with both of its paths, over Projection/EventLog and Delivery/Dispatcher. Outcome and Durable
--     are about the ways out of `process`, Records about the tables that it leaves, HotPath about
--     the calls of the consumers after the commit.
--   Pipeline/Event: event/event.py and event_metadata.py. Pipeline/Repository:
--     event_repository/memory_event_repository.py. Pipeline/Service: event_service/event_service.py
--     over it; Archive is about its methods. Pipeline/Dispatch: event_dispatcher/event_dispatcher.py.
--   Pipeline/Filter: event_filter/event_filter.py; Ids and Meaning are about what a filter keeps.
--   Pipeline/Bus: event_bus/event_bus.py and subscription.py; Registry is about runs of the bus.
-- Entities: the read models that are built from events.
--   Entities/Graph: entity_graph.py and memory_graph_repository.py of backend/app/entity_graph.
--     Invariant and Runs are about the methods that change the graph; Walk, Expand, Layers and
--     Search about `shortest_path`.
--   Entities/Manager: entity_manager and entity_bridge, with the projection of canonical events of
--     composition.py; Projected and Replay are about projecting events once and again.
--   Entities/Relations: relation_manager.py and memory_relation_repository.py of entity_relations.
-- Runtime: backend/app/event_sources/runtime.
--   Runtime/Lifecycle: lifecycle.py. Runtime/RestartPolicy: restart_policy.py.
--   Runtime/Adapter: adapter_runtime.py, a function for each part of a method between two releases
--     of the lock; Steps is the step relation of all threads, Budget, Stop and Polling are about it.
--   Runtime/Supervisor: adapter_supervisor.py, and registry/source_registry.py of event_sources;
--     Isolation is about its calls of all runtimes.
--   Runtime/Ingest: `submit_raw` of adapter_runtime.py. Runtime/Health: runtime_health.py.
-- Audio: backend/app/audio.
--   Audio/Packet, Parse, Padding: rtp.py. Audio/Build: rtp_simulator.py. Audio/Stream: rtp_stream.py.
--   Audio/Alaw: alaw.py. Audio/Segmenter: segmenter.py; Segments and PreRoll are about its runs.
--   Audio/FlowRouter: flow_router.py; Order, Recency, Eviction and Bound are about its
--     flows.
-- Operator/Severity: backend/app/operator/severity.py, from the loaded rules on.
-- Base holds what the parts share: lists, dicts, tests, texts and results.
--
-- Bounds. Times are whole microseconds or ticks, texts of errors are code points where the code cuts
-- them; 16-bit and 32-bit fields of RTP are cut by `%`. The shift loop of the A-law encoder runs on
-- fuel 6, which is enough for the magnitudes up to 0x7FFF that it is given. The search for a
-- shortest path runs on fuel, and two rounds more than there are edges are enough, since a round
-- that pushes a node marks the target of an edge. All other loops run along a list. Floats and
-- datetimes of the segmenter are parameters, of which nothing is assumed. Integers of Python have
-- no bound, and neither have these.
--
-- Not modelled: database sessions and schema, sockets, threads' joins and timeouts, logging, the
-- loading of the severity ruleset, the queries of the event log by type, source and correlation,
-- and the packages of the backend that are not named above.
pub mod Base
pub mod Delivery
pub mod Audio
pub mod Runtime
pub mod Operator
pub mod Projection
pub mod Pipeline
pub mod Entities
