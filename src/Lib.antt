-- ===== src/Lib.antt =====
-- The AI Proctor Engine: the messages of a candidate's browser and their connection, the dispatcher
-- and its inference runners, the fusion engine, the persistence of its decisions, the session's
-- state machine, the operations of the administrators, the LTI launch and the evidence.
--
-- The program. A candidate's browser sends telemetry over a WebSocket; `TelemetryEventBuffer`
-- (src/proctoring_engine/websocket/server.py) holds it, once the handshake and the message loop of
-- src/proctoring_engine/websocket/routes.py have let it in, for the session's `FrameDispatcher`
-- (src/proctoring_engine/orchestration/_frame_dispatcher.py), which runs the inference modules at
-- the cadence of `ModalityScheduler` (src/proctoring_engine/preprocessing/scheduler.py) and hands
-- their results to one `SessionAggregator` per session
-- (src/proctoring_engine/fusion/aggregator.py). The aggregator returns flag decisions by seven
-- paths; a worker writes them as rows (src/proctoring_engine/orchestration/_flag_persistence.py and
-- _flag_persistence_worker.py), and one that terminates makes `DeliveryService`
-- (websocket/server.py) send a kill switch. The status of the session moves by
-- src/proctoring_engine/orchestration/_state_machine.py.
-- Administrators set policies, review flags and approve what lets a session in without an identity
-- check (src/proctoring_engine/orchestration/_admin_service.py).
-- Before all that a launch from the learning platform is checked against a store of pending launches
-- and its roles are reduced to one (src/proctoring_engine/lti/state.py and roles.py).
--
-- The files.
--   Base and its children: lists, windows, Boolean tests, and results that may raise.
--   Floats: the numbers of Python's `float`, a type with its operations, and the laws relied on.
--   Inference: the result classes of src/proctoring_engine/inference/_types.py, with the checks of
--     their constructors. Its children are the runners of src/proctoring_engine/inference: the table
--     of browser events (BrowserEvents), and what AudioVad, IdentityMatch, LivenessCheck,
--     ObjectDetection and HeadPoseGaze make of the outputs of their models (Intervals is what they
--     share).
--   Fusion/Types, Fusion/Exemptions, Fusion/BookSeverity: src/proctoring_engine/fusion/_types.py,
--     exemptions.py and book_severity.py, and the snapshots of fusion/aggregator.py.
--   Fusion/Aggregator: the state of `SessionAggregator`, a field for each attribute, and the
--     accumulated-score check; its children hold one handler each (FacePresence, Liveness, Gaze,
--     Identity, Objects, Signals), and the computation of an interval over a window (Intervals).
--     A handler takes the state and returns its decisions, or the exception raised, and the state
--     that it leaves.
--   Fusion/Session: a sequence of handler calls, in any order; its children compare what a whole
--     session emits with searches over its history (Faces, Identities, Spoofs, Gazes), and follow
--     the accumulated score (Scores) and the fields of the decisions (Validity).
--   Fusion/Streaks: those searches.
--   Orchestration/StateMachine: the table of transitions and `apply_transition`.
--   Orchestration/FrameDispatcher: the dispatcher's state and its emission of decisions; its children
--     hold the handler of each message (HeavyFrames, Handlers), the box of a face in pixels
--     (FaceBox), the runners around the models of an event (Wiring), the elementary changes of the
--     handlers as a step relation (Moves), and the loop (Loop) with what a batch does: the calls of
--     the aggregator (Sessions), the events (Handover), the counters (Counts), the liveness module
--     (Spoofing), and the thread that fills the buffer meanwhile (Interleavings).
--   Orchestration/AdminService: the errors of the service; its children hold the changes of roles
--     (Roles), the identity overrides (Overrides), the reviews of flags (Reviews), the versions of
--     policies (Policies) with the constraints of their thresholds (Thresholds), and the registry of
--     accommodation exemptions (Exemptions).
--   Orchestration/FlagPersistence: `persist_flag_decision` on the rows of one session; its children
--     hold the worker (Worker), what its kill switches and counters come to (Audit), and what
--     is written for a decision (Links, Attempts, Integrity). The worker's `count` stands for the two
--     counters, and the calls of the kill-switch callback are listed as if one were set.
--   Lti/LaunchStates and Lti/Roles: the in-memory store of launch states, and the role of a launch.
--   Evidence/StorageKey: the keys of src/proctoring_engine/evidence/_storage_key.py.
--   Evidence/Retention: `run_retention_deletion` of src/proctoring_engine/evidence/retention.py; the
--     answers of the object store and of the database to its calls are an argument. Its children are
--     lists of rows (Rows), the reasons of what a run did (Causes, Batches) and its end (Progress).
--   Preprocessing/Scheduler: `ModalityScheduler` and `InferenceDecision`.
--   Preprocessing/RollingBuffer: the bounded buffer of preprocessing/rolling_buffer.py.
--   Preprocessing/Frames and Preprocessing/Audio: preprocessing/frames.py and audio.py.
--   Websocket/Messages: the messages of websocket/client.py with the checks of their models, and the
--     parser (Parsing).
--   Websocket/Routes: the connection up to the start of the dispatcher (Handshake), and the receiving
--     of messages (MessageLoop).
--   Websocket/EventBuffer and Websocket/Delivery: the two classes of websocket/server.py.
--   Tests: concrete sessions, queues, launches, requests, buffers, messages and connections.
--
-- The model. Identifiers are natural numbers, which are only compared. Times are natural numbers of
-- milliseconds. A float is an element of a type F with the operations of `FloatOps`; what the laws
-- in `FloatLaws` say holds of IEEE 754 values that are no NaN and of additions that do not
-- overflow, and a theorem that needs them takes them as an argument. The sum of a window and its
-- quotient are bound by no law. A loop is structural recursion on the list that it reads, but for
-- the deletion of evidence, which runs on fuel: one more than the number of rows is enough. A
-- method that takes a lock is one step. The texts of exceptions and log messages are left out, and
-- `db.commit()` is taken to succeed, but for the deletion of evidence and for the constraints of
-- tables that are written out. The closing of a connection is taken to succeed, and the sending
-- of an acknowledgement may fail, by a Boolean of each text;
-- what the session does with the row of an event that is there already is a Boolean of each decision.
--
-- What the inference models, OpenCV, numpy, Pydantic, the decoders of base64 and the token library
-- answer is an argument. The dispatcher meets them as one `World` for each event, which also holds
-- the event's new UUID, so a theorem about every world holds whatever they answer or raise; the
-- worlds of Wiring, made of the runners, are some of them. The order of a JSON object's fields is that
-- of a list, of which the first of a name is read.
--
-- Not modelled: the loading of models, and the detector of faces of the server
-- (inference/face_presence.py), which the dispatcher does not call; the HTTP routes; the heartbeat
-- and the tasks of a WebSocket; the stop of the dispatcher's thread; the tokens and keys of an LTI
-- launch; the object store; the database schema but for the rows and constraints named, and its
-- migrations.
mod Base
pub mod Floats
pub mod Inference
pub mod Fusion
pub mod Orchestration
pub mod Preprocessing
pub mod Websocket
pub mod Lti
pub mod Evidence
pub mod Tests
