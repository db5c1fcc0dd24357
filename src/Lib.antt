-- ===== src/Lib.antt =====
-- The parts of idiolect that decide what a dictation becomes, and who may fetch it: a verification
-- library beside the Rust code. Paths are from the repository's root.
--
-- How the parts interact. A desktop engine (Ime) turns the user's keys and the daemon's messages
-- into calls on the daemon and on the text surface. The daemon feeds microphone audio to a take
-- (Streaming.Take), which cuts it into frames (Segmentation's FrameBuffer), has each frame
-- labelled by the detector, cuts snippets at pauses (Segmentation), decodes each snippet and
-- folds its text and audio into the take; at the end the whole take is decoded again, and the
-- decisions of Streaming.Decisions choose between the texts. Recorded audio can also be labelled
-- as a whole (Vad). The daemon (Daemon) opens the microphone, pumps it into the take, stores the
-- result as a session, and tells the client (Ipc). A device that wants to sync is paired by a
-- short code (Sync.Pairing) and then holds a token (Sync.Tokens). What the daemon stores is in a
-- database (Store), which also holds the candidates for training and the adapters made of them.
--
-- Files, and what they model:
-- - Common, Text: Boolean tests on numbers, lists measured by numbers, strings as lists of chars.
-- - Segmentation (children Frames, Blocks, Durations, Holding, Partition, Only, Timing):
--   crates/idiolect-application/src/use_cases/segmentation.rs. UtteranceSegmenter and FrameBuffer
--   are records of the same names, `&mut self` is a record taken and given back, `push_frame`,
--   `flush` and `push` are the methods. Vec<f32> is a list over any type.
-- - Streaming.Decisions, Streaming.Take (and children):
--   crates/idiolect-application/src/use_cases/streaming.rs. The detector, the transcriber and the
--   observer are functions with a state of their own; an observer's error is returned with it.
-- - Ime.Reader: the read loop of crates/idiolect-adapters/desktop/ibus/src/ibus.rs, which applies
--   the daemon's messages to the session; the focus and the dialog's answer come from outside.
-- - Ime.Session, Ime.Review (and children): crates/idiolect-adapters/desktop/ibus/src/session.rs.
--   The traits DaemonClient and Surface are the list of calls made on them; a panic of `on_key`
--   is `none`. Events makes one type of the public operations.
-- - Sync.Tokens, Sync.Pairing (and children): crates/idiolect-sync-server/src/device_tokens.rs
--   and crates/idiolect-sync-server/src/pairing.rs. SHA-256 and the parser of the token file's
--   JSON are parameters; clocks, minted tokens, drawn bytes and the success of a write are
--   arguments of the operation that asks for them.
-- - Sync.Clock (and Calendar): the calendar of device_tokens.rs.
-- - Vad (and Regions): crates/idiolect-adapter-vad/src/lib.rs, the WebRTC detector a parameter.
-- - Domain (and Outcomes): crates/idiolect-core/src/domain/session.rs.
-- - Training (Registry, Gate and its Order): crates/idiolect-trainerctl/src/promotion.rs, the
--   gate with the floating-point numbers as a parameter, and the registry of promoted adapters, a
--   function from users for its HashMap; the digests and deltas are of metrics.rs.
-- - Process (and Stderr): of crates/idiolect-process/src/lib.rs, the capture of a helper's stderr
--   and the texts made of it; the results of `read` are given in order.
-- - Ipc: crates/idiolect-ipc/src (messages.rs, framing.rs, handshake.rs), the JSON text a
--   parameter.
-- - Daemon: crates/idiolectd/src/run_loop.rs. Status has RecordingStatusTx and the sending,
--   Sessions the calls on the store, Takes the microphone and the streamed take, Connection the
--   messages, and Serving the tray and the accept loop. `&mut Live` and what the daemon shares
--   are one state, passed on by a monad that keeps it where a call fails; what the daemon asks of
--   the outside is the record Outside. Protocol, Rules, Quiet, Settling, Taking, Messages,
--   Clients, Mirror, Delivery, Ending, Landing and Microphone are about these.
-- - Store (Table, Sessions, History, Candidates, Privacy, Adapters, Runs, Settings,
--   AudioFiles, and children):
--   crates/idiolect-adapter-sqlite/src/repository.rs, the methods of SqliteMetadataStore. A table
--   (migrations/*.sql) is a list of rows in the order of insertion, with the columns that the
--   methods read or that carry the user's texts; a statement is an operation of Table on it; an
--   error inside a transaction gives the old tables back. Instants, nonces and the identifiers
--   that are drawn are arguments. The cipher, the JSON of serde and the audio files are
--   parameters; of crates/idiolect-adapter-sqlite/src/audio_store.rs, AudioFiles (and Keys) has the
--   checks and the making of the keys. Runs makes one type of the calls.
-- - The modules named Examples hold concrete runs.
--
-- Bounds and fuel. Numbers are unbounded, and where the source's arithmetic can wrap or saturate
-- it is written out: the u32 product of frames and milliseconds (Segmentation.speech_ms), the
-- depth of brackets (Streaming.Decisions.noise_from), the saturating end of a code's life
-- (Sync.Pairing.saturating_add). The loop Vad.chunks_exact runs on fuel: it is given the number
-- of samples, and each round cuts 480 of them. So does Sync.Clock.year_of: a round takes a whole
-- year of the days, and it is given one round more than there are days.
--
-- Not modelled: threads, sockets, the tray menu and the maintenance of the daemon, SQL and its
-- engine (a busy or failing disk), migrations, manifests, correction memory, the user interfaces,
-- the decoders and codecs, HTTP and TLS, QR codes and URIs, the text of timestamps, training runs,
-- and the Android and Fcitx5 front ends. The two mutexes of the sync server are held over each
-- whole operation, so its histories are sequences of operations.
pub mod Common
pub mod Text
pub mod Segmentation
pub mod Ime
pub mod Streaming
pub mod Sync
pub mod Domain
pub mod Vad
pub mod Process
pub mod Ipc
pub mod Daemon
pub mod Training
pub mod Store
