-- ===== src/Lib.antt =====
-- Verification library for the RPi VMS media server and its RTSPS proxy.
--
-- The program takes encoded video from cameras (ingest, one per channel), keeps what it records on
-- mounted storage, and serves live video over RTSP: a control connection per client, with RTP
-- packets interleaved on the same TCP stream. A separate proxy relays RTSP to a camera.
--
-- Prelude (with Tests, Lists, Int): numbers, Boolean tests, lists and signed integers. Numbers are
--   natural numbers; where the source's integer has w bits the model writes `% 2 ^ w`.
-- Bytes (with Find, Number): std::string as a list of bytes, and find, compare, stoi, stoull and
--   to_string of the C++ library in the "C" locale.
-- Parser: src/rtsp/rtsp_message_parser.cpp. Parser/Text has the text helpers, Parser/Headers the
--   reading of headers, Parser/Extract the message framing (`extract_one_rtsp_message`,
--   `resync_message_buffer`). One round of the loop is `round`. The loop is on fuel, and `stuck`
--   says that the fuel ran out; Parser/Extract/Progress has which buffers that happens on when
--   there is more fuel than bytes, described in Parser/Extract/Starts and Parser/Extract/Rejects,
--   and Parser/Extract/Spin a class of such buffers. Parser/Log is what is logged of a message.
-- FrameQueue: `BoundedFrameQueue` of src/live/live_rtsp_server.cpp. Its methods run under a mutex,
--   so a history of calls by several threads is a list of calls (FrameQueue/Order).
-- Rtp: `make_rtp_packet`, `interleaved`, `packetize_access_unit` of the same file; Rtp/Receiver is
--   an independent receiver after RFC 6184 and RFC 7798. Rtp/Split is `split_access_unit`. The fuel
--   of each loop is the number of bytes left, of which a round takes one at least.
-- Control: `process_rtsp_request` and what it calls (Control/Target, Control/Reply). The state that
--   the function changes is passed on; the two numbers of `std::random_device` are arguments.
--   Control/Session puts the requests of one connection in a row, as `run_session` does.
-- Base64, Media: `base64_encode`, `frame_timestamp` and `make_rtcp_sender_report` of
--   src/live/live_rtsp_server.cpp; the clock's readings are arguments.
-- Live: `send_frame`, `on_frame`, the parameter sets, the constructor and the channel lookups of the
--   same file, over FrameQueue, Rtp and Media. The clients that `on_frame` finds alive are a list.
--   Live/Session is the loop of `run_session`, over Parser/Extract and Control, with the fuel of an
--   extraction one more than the bytes of the input.
-- Config: `parse_vms_args` of src/main.cpp with the options and tests of the command line. The line
--   read from standard input and the `/` of two paths are arguments.
-- ProxyConfig: `parse_args` of src/config/app_config.cpp, the proxy's command line, with the loop of
--   Config over its own options.
-- Channels: `parse_channel_map` of src/media/channel_manager.cpp and the test in the constructor of
--   `ChannelManager`. The loop's fuel is the number of bytes, of which a round takes one at least.
-- Ingest: src/media/channel_ingest.cpp. Ingest/Attempt is `run_attempt` and what GStreamer's threads
--   call, Ingest/Waiting `wait_before_reconnect`, Ingest/Run `run`, Ingest/Segments the names of
--   recordings. The bus, the clock, the running flag and the callbacks are sequences of inputs; a
--   part that has not ended when they do is `unfinished`. The fuel of the wait is its milliseconds
--   and one more, of which a round takes one at least.
-- Startup: what `main` of src/main.cpp makes of a configuration and its channel map for the index,
--   the ingests, the live server and the channel manager. It joins Config, Channels, Ingest and Live.
-- Manager: `ChannelManager` of src/media/channel_manager.cpp with the threads of its workers. Its
--   calls, the signal and the ends of the threads are a list of events. The wait of `start` is
--   `wait_loop` of Ingest/Waiting, with the same fuel.
-- Digest: src/rtsp/digest_authenticator.cpp, with MD5 as an argument.
-- Proxy: src/proxy/rtsp_proxy_session.cpp, one client of the proxy and its camera; Proxy/Loop is the
--   loop around `select`. What the sockets give, whether the camera is reached and which messages
--   are sent in full are arguments. It uses Parser/Extract, Rewriter and Digest as the code does.
-- Rewriter: src/rtsp/rtsp_rewriter.cpp, the proxy's rewriting of requests and responses.
-- Storage: `StorageManager::check` of src/storage/storage_manager.cpp over the file system's answers.
--
-- The client's Transport header and request line reach Control through Parser; the frames that
-- FrameQueue hands out are split by Rtp/Split, packetized by Rtp, and framed by `interleaved`,
-- whose frames Parser/Extract reads back.
--
-- Not modelled: sockets, threads, TLS, GStreamer, SQLite, the file system, MD5 and logging, which
-- are calls of libraries; the wiring of GStreamer's elements; the threads of the two servers; and
-- the recording index, which is SQL text but for one test (Startup).
pub mod Prelude
pub mod Bytes
pub mod Parser
pub mod FrameQueue
pub mod Ingest
pub mod Rtp
pub mod Control
pub mod Config
pub mod Channels
pub mod Storage
pub mod Base64
pub mod Media
pub mod Live
pub mod Startup
pub mod Manager
pub mod Rewriter
pub mod ProxyConfig
pub mod Digest
pub mod Proxy
