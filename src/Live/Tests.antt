-- ===== src/Live/Tests.antt =====
-- Runs of the live server's channels and of a client's first frame.
use rpi_server.Prelude.{◌≡◌, refl, Bool, true, false, none, some, List, [], ◌∷◌, All, arith}
use rpi_server.Prelude.Int.{pos, negsuc}
use rpi_server.Bytes.{Bytes, codes}
use rpi_server.FrameQueue.{h264, h265, OwnedLiveFrame}
use rpi_server.Rtp.{Sent}
use rpi_server.Rtp.Receiver.{depacketize, payloads}
use rpi_server.Rtp.Split.{split_access_unit}
use rpi_server.Live.{
  ParameterSets, no_sets, update_parameter_sets, LiveClient, SendContext, send_frame,
  parameter_sets, codec_fmtp,
}
use rpi_server.Live.Channels.{
  LiveRtspServerConfig, new_server, find_live_channel, channel_list, LiveServer,
}
use rpi_server.Media.{frame_timestamp}
use rpi_server.Live.Written.{Writes}
use rpi_server.Live.Start.{send_frame-Writes}
use rpi_server.Live.Tuned.{IsTuned, on_frames, on_frames-IsTuned}

abbrev key_frame : OwnedLiveFrame
key_frame = record {
  bytes = 0 ∷ 0 ∷ 0 ∷ 1 ∷ 0x67 ∷ 1 ∷ 0 ∷ 0 ∷ 0 ∷ 1 ∷ 0x68 ∷ 2 ∷ 0 ∷ 0 ∷ 0 ∷ 1 ∷ 0x65 ∷ 3 ∷ [];
  pts_ns = pos 1000000000;
  duration_ns = pos 33333333;
  key_frame = true;
  channel_id = 2;
  codec = h264;
}

abbrev kept_sets : ParameterSets
kept_sets = record no_sets { h264_sps = 0x67 ∷ 1 ∷ []; h264_pps = 0x68 ∷ 2 ∷ [] }

sets_kept : update_parameter_sets key_frame no_sets ≡ kept_sets
unfolding update_parameter_sets
sets_kept = refl

fmtp_built : codec_fmtp kept_sets h264 ≡ codes "packetization-mode=1;sprop-parameter-sets=ZwE=,aAI="
unfolding codec_fmtp
fmtp_built = refl

abbrev two_channels : LiveRtspServerConfig
two_channels = record {
  rtsp_port = pos 8554;
  rtsps_port = pos 0;
  tls_cert_file = [];
  tls_key_file = [];
  channel_id = pos 1;
  codec = h264;
  channels =
      record { channel_id = pos 2; codec = h264 }
      ∷ record { channel_id = pos 4; codec = h265 }
      ∷ [];
}

two_channels_accepted :
    (new_server two_channels ≡ some two_channels)
    × (find_live_channel two_channels (pos 4) ≡ some h265)
    × (find_live_channel two_channels (pos 1) ≡ none)
    × (channel_list [] two_channels.channels ≡ codes "/ch2,/ch4")
unfolding new_server find_live_channel channel_list
two_channels_accepted = (refl, refl, refl, refl)

abbrev viewer : LiveClient
viewer = record {
  media = record {
    ssrc = 7;
    timestamp_origin = 100;
    first_pts_ns = negsuc 0;
    last_timestamp = 0;
    packet_count = 0;
    octet_count = 0;
  };
  queue = record {
    max_frames = 8;
    max_bytes = 100000;
    frames = [];
    bytes = 0;
    drops = 0;
    closed = false;
  };
  playing = true;
  connected = true;
  channel_id = pos 2;
  sequence = 65535;
  first_rtp_sent = false;
  waiting_for_keyframe = true;
  last_rtcp = 0;
  wires = [];
}

abbrev sending : SendContext
sending = record {
  rtp_mtu = 1200;
  rtp_channel = 0;
  rtcp_channel = 1;
  sets = kept_sets;
  steady_now = 5000;
  seconds_since_1970 = 1700000000;
  fraction_ns = 500;
}

abbrev takes_all : List Bytes → Bytes → Bool
takes_all sent wire = true

abbrev server : LiveServer
server = record { sets = λ i. no_sets; clients = viewer ∷ []; queue_drops = 0 }

send_frame-Writes_example :
    (s : Sent) × Writes sending
      (frame_timestamp viewer.media key_frame)
      0
      s.packets
      []
      (send_frame takes_all sending key_frame viewer)
    × (depacketize h264 [] (payloads s.packets)
        ≡ (0x67 ∷ 1 ∷ [])
          ∷ (0x68 ∷ 2 ∷ [])
          ∷ (0x67 ∷ 1 ∷ [])
          ∷ (0x68 ∷ 2 ∷ [])
          ∷ (0x65 ∷ 3 ∷ [])
          ∷ [])
unfolding parameter_sets split_access_unit
send_frame-Writes_example =
    send_frame-Writes takes_all (λ sent w. refl) sending key_frame viewer refl (omega arith)
      (omega arith) (omega arith) (omega arith) (omega arith) (omega arith)
      (
        (omega arith, λ e. absurd (omega arith)),
        (
          (omega arith, λ e. absurd (omega arith)),
          (
            (omega arith, λ e. absurd (omega arith)),
            (
              (omega arith, λ e. absurd (omega arith)),
              ((omega arith, λ e. absurd (omega arith)), tt),
            ),
          ),
        ),
      )

on_frames-IsTuned_example :
    All
      (IsTuned two_channels.channels)
      (on_frames two_channels (key_frame ∷ key_frame ∷ []) server).clients
on_frames-IsTuned_example =
    on_frames-IsTuned two_channels (key_frame ∷ key_frame ∷ []) server (tt, tt)
