-- ===== src/Live/Session/Tests.antt =====
-- Runs of a session.
use rpi_server.Prelude.{◌≡◌, refl, Bool, true, false, List, [], ◌∷◌, ◌++◌}
use rpi_server.Prelude.Int.{pos, negsuc}
use rpi_server.Bytes.{Bytes, codes}
use rpi_server.FrameQueue.{OwnedLiveFrame, h264}
use rpi_server.Parser.Extract.{ParserLimits}
use rpi_server.Control.Channels.{start}
use rpi_server.Control.Reply.{random_session_id}
use rpi_server.Live.{no_sets, LiveClient, SendContext}
use rpi_server.Live.Channels.{Channel}
use rpi_server.Live.Session.{
  LiveSession, Turn, leaves, arrived, unreadable, over, Wake, session_loop,
}
use rpi_server.Live.Session.Requests.{IsStreaming, Ends}
use rpi_server.Live.Session.Streaming.{session_loop-IsStreaming}

abbrev key_frame : OwnedLiveFrame
key_frame = record {
  bytes = 0 ∷ 0 ∷ 0 ∷ 1 ∷ 0x67 ∷ 1 ∷ 0 ∷ 0 ∷ 0 ∷ 1 ∷ 0x68 ∷ 2 ∷ 0 ∷ 0 ∷ 0 ∷ 1 ∷ 0x65 ∷ 3 ∷ [];
  pts_ns = pos 1000000000;
  duration_ns = pos 33333333;
  key_frame = true;
  channel_id = 2;
  codec = h264;
}

abbrev viewer : LiveClient
viewer = record {
  media = record {
    ssrc = 7;
    timestamp_origin = 100;
    first_pts_ns = negsuc 0;
    last_timestamp = 0;
    packet_count = 0;
    octet_count = 0;
  };
  queue = record {
    max_frames = 8;
    max_bytes = 100000;
    frames = [];
    bytes = 0;
    drops = 0;
    closed = false;
  };
  playing = false;
  connected = true;
  channel_id = negsuc 0;
  sequence = 65535;
  first_rtp_sent = false;
  waiting_for_keyframe = true;
  last_rtcp = 0;
  wires = [];
}

abbrev sending : SendContext
sending = record {
  rtp_mtu = 1200;
  rtp_channel = 0;
  rtcp_channel = 1;
  sets = no_sets;
  steady_now = 5000;
  seconds_since_1970 = 1700000000;
  fraction_ns = 500;
}

abbrev limits : ParserLimits
limits = record { max_header_bytes = 4096; max_body_bytes = 4096 }

abbrev one_channel : List Channel
one_channel = record { channel_id = pos 2; codec = h264 } ∷ []

abbrev takes_all : List Bytes → Bytes → Bool
takes_all sent wire = true

abbrev opened : LiveSession
opened = record { input = []; control = start; client = viewer; connected = true }

abbrev set_up_and_play : Bytes
set_up_and_play =
    codes
      "SETUP rtsp://host/ch2/trackID=0 RTSP/1.0\r\nCSeq: 3\r\nTransport: RTP/AVP/TCP;unicast;interleaved=4-5\r\n\r\n"
    ++ (codes "PLAY rtsp://host/ch2 RTSP/1.0\r\nCSeq: 4\r\nSession: "
        ++ (random_session_id 1 2 ++ codes "\r\n\r\n"))

abbrev rounds : List Wake
rounds =
    record {
      running = true;
      reading = arrived set_up_and_play;
      pushed = key_frame ∷ [];
      context = sending;
    }
    ∷ record { running = true; reading = unreadable; pushed = []; context = sending }
    ∷ []

abbrev outcome : Turn
outcome =
    session_loop takes_all limits one_channel (λ sent id. no_sets) (λ sent. 1) (λ sent. 2) rounds
      opened

abbrev hung_up : Wake
hung_up = record { running = true; reading = over; pushed = key_frame ∷ []; context = sending }

closed_by_client :
    session_loop takes_all limits one_channel
      (λ sent id. no_sets)
      (λ sent. 1)
      (λ sent. 2)
      (hung_up ∷ [])
      opened
    ≡ leaves opened
unfolding session_loop
closed_by_client = refl

session_loop-IsStreaming_example : Ends (IsStreaming start) outcome
session_loop-IsStreaming_example =
    session_loop-IsStreaming takes_all limits one_channel (λ sent id. no_sets) (λ sent. 1)
      (λ sent. 2) rounds opened refl refl
