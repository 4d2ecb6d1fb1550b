-- ===== src/Parser.antt =====
-- src/rtsp/rtsp_message_parser.cpp, include/rtsps/rtsp_message_parser.h: the text helpers, the
-- parts of an RTSP message, and the framing of a byte stream into messages.
pub mod Text
pub mod Headers
pub mod Extract
pub mod Log
