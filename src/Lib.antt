-- ===== src/Lib.antt =====
-- LanPilot: a workstation that is used from another machine of the local network. The host
-- captures its desktop and sends it as visual messages, or as video frames in datagrams; the
-- viewer rebuilds the picture and sends input, acknowledgements and recovery requests back. Each
-- desktop session has two TLS connections, a visual and a control one, that are admitted
-- together, and every action is subject to capabilities that a local policy grants.
--
-- Parts and files, with the C++ that each follows:
--
-- - Common: numbers, lists, sorted sets and maps, and exceptions as values. `Result` holds a
--   value or the class of a std:: exception; the text of a message is not kept.
-- - Core/Authorization and Core/Capability: core/src/authorization.cpp (permits, authorize,
--   default_agent_policy, to_string, capability_from_string).
-- - Core/Identity: core/src/identity.cpp (DeviceRegistry, MtlsTrustGate, PairingService,
--   DiscoveryCache). Core/Audit: AuditLog of core/src/audit.cpp. Core/Session:
--   core/src/session.cpp. Core/SessionService: core/src/session_service.cpp, with the registry
--   and the log that it refers to in its state.
-- - Core/Paths: is_canonical_workspace_path, and is_sha256_hex of core/src/content_hash.cpp.
--   Core/Workspace, Core/WorkspaceDiff and Core/ResumeLedger: the manifests, their difference
--   and its application, and ChunkResumeLedger of core/src/workspace_sync.cpp.
-- - Audio: audio/src/audio.cpp. Audio/Packet has the packets on the wire, Audio/Jitter the
--   AudioJitterBuffer, Audio/Channel the AudioSender, the AudioReceiver and the relays.
-- - Transport/ChannelHandshake: the hello and admission messages of
--   transport/src/channel_session.cpp and the peer evidence of
--   transport/src/certificate_identity.cpp. Transport/ChannelSession: TcpChannelSession of the
--   same file (attach, active, input_allowed, disconnect, revoke).
-- - Transport/Settings, Transport/Features and Transport/Resilient:
--   transport/src/resilient_transport.cpp (validations, negotiate_features, ResilientTransport).
--   Transport/Fallback: transport/src/encrypted_fallback.cpp.
-- - Desktop: desktop/src/desktop.cpp with desktop/include/rwn/desktop/desktop.hpp. Wire has its
--   Writer and Reader; Limits, VisualMessageType, ReverseControlType and InputKind its
--   constants; Previews, Headers, Updates and Datagram its messages; Fragment fragment_frame;
--   Reassembly FrameReassembler; Framebuffer CanonicalFramebufferState; Snapshot
--   FullSnapshotAssemblyGuard and SnapshotWireDrainPlan; Rects RawRectTransactionGuard; Utf8
--   valid_utf8; InputEvents the input event; Input InputReceiver; Pacing VisualSequenceTracker,
--   LatestFrameQueue, InputFocusReleaseGate and adapt_video_settings.
--
-- How they interact: Datagram carries the fragments that Fragment makes, Reassembly joins them,
-- and Pacing queues the frames; Snapshot admits the chunks and Rects the rectangles that Updates
-- decodes, under the headers of Headers, before Framebuffer commits them; the acknowledgement
-- that Framebuffer gives is a message of Updates; Input asks Core/Authorization for the
-- capability of desktop control, and InputEvents asks Utf8 for its texts. The handshake reads
-- and writes with Wire. Core/SessionService asks Core/Identity whether the certificate of a
-- session is trusted, Core/Authorization what its request is granted, Core/Session whether its
-- lease has ended, and writes to Core/Audit. The audio channels ask Core/Authorization too, and
-- queue their packets in Audio/Jitter. A resilient transport connects with settings of
-- Transport/Settings, and its fallback is checked by Transport/Fallback.
--
-- Conventions: an object is a record and a member function returns the new record beside its
-- result; where C++ throws after a change of state, the changed record stands beside the
-- exception. Integers are natural numbers with the wrap-around of their width written out; a
-- byte string is a list of numbers below 256; a member of an enum class with a fixed underlying
-- type is a number. A backend that is called is the list of its calls; a codec, a connector, a
-- transport plane or an audit sink is an argument, a function of what it is given. A text that
-- is only compared is a String, one that is taken apart is a list of its bytes. A time point or
-- a duration is its count of ticks. A std::map of entries with a path is the list of them in the
-- order of the paths.
--
-- Bounds: take_burst runs on as many rounds as the snapshot has bytes and valid_utf8 on as many
-- as the text has; each round of either moves on by at least a byte. fragment_frame has as many
-- rounds as fragments. std::to_string of a 64-bit number has at most 20 digits, and decimal as
-- many rounds. Every other loop is on a list.
--
-- Not modelled: floating point (pointer mapping, preview scaling, percentiles), hashing and with
-- it the clipboard, the digest of rectangles and the revision history of a workspace, the text
-- formats (JSON lines of the audit log, transport settings, policy and pairing files), and all
-- input and output: sockets, TLS, codecs, windows, files and processes. A backend call that
-- throws is outside the model.
pub mod Common
pub mod Core
pub mod Transport
pub mod Desktop
pub mod Audio
