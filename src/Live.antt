-- ===== src/Live.antt =====
-- src/live/live_rtsp_server.cpp: what the live server keeps of its channels and of each client's
-- media, and how a frame reaches a client. The readings of the clocks, and which writes to a client
-- succeed, are arguments.
pub mod Sets
pub mod Written
pub mod Start
pub mod Channels
pub mod Tuned
pub mod Session
mod Tests
use rpi_server.Prelude.{
  ℕ, zero, suc, ◌+◌, ◌-◌, ◌*◌, ◌/◌, ◌%◌, ◌^◌, Bool, true, false, not, ◌&&◌, ◌||◌, Option, none,
  some, List, [], ◌∷◌, ◌++◌, leb, ltb, ◌==◌, if◌then◌else◌, length,
}
use rpi_server.Prelude.Int.{ℤ, pos, ltb_ℤ, eqb_ℤ}
use rpi_server.Bytes.{Bytes, codes}
use rpi_server.Bytes.Number.{to_string}
use rpi_server.Base64.{base64_encode}
use rpi_server.FrameQueue.{VideoCodec, h264, h265, OwnedLiveFrame, BoundedFrameQueue, push}
use rpi_server.Media.{ClientMediaState, frame_timestamp, make_rtcp_sender_report}
use rpi_server.Rtp.{interleaved, RtpPacket, RtpContext, Sent, packetize_access_unit}
use rpi_server.Rtp.Split.{split_access_unit}

pub record ParameterSets : Type 0 where
  pub h264_sps : Bytes
  pub h264_pps : Bytes
  pub h265_vps : Bytes
  pub h265_sps : Bytes
  pub h265_pps : Bytes

abbrev pub no_sets : ParameterSets
no_sets = record { h264_sps = []; h264_pps = []; h265_vps = []; h265_sps = []; h265_pps = [] }

-- The body of the loop, for a NAL unit of either codec; `& 0x1f` and `& 0x3f` are remainders.
unfoldable pub keep_nal : VideoCodec → Bytes → ParameterSets → ParameterSets
keep_nal codec [] sets = sets
keep_nal h264 (header ∷ rest) sets =
    let nal_type = header % 32 in
    if nal_type == 7
    then record sets { h264_sps = header ∷ rest }
    else if nal_type == 8
    then record sets { h264_pps = header ∷ rest }
    else sets
keep_nal h265 (header ∷ []) sets = sets
keep_nal h265 (header ∷ header1 ∷ rest) sets =
    let nal_type = header / 2 % 64 in
    if nal_type == 32
    then record sets { h265_vps = header ∷ header1 ∷ rest }
    else if nal_type == 33
    then record sets { h265_sps = header ∷ header1 ∷ rest }
    else if nal_type == 34
    then record sets { h265_pps = header ∷ header1 ∷ rest }
    else sets

unfoldable pub keep_nals : VideoCodec → List Bytes → ParameterSets → ParameterSets
unfolding keep_nal
keep_nals codec [] sets = sets
keep_nals codec (nal ∷ nals) sets = keep_nals codec nals (keep_nal codec nal sets)

unfoldable pub update_parameter_sets : OwnedLiveFrame → ParameterSets → ParameterSets
unfolding keep_nals split_access_unit
update_parameter_sets frame sets = keep_nals frame.codec (split_access_unit frame.bytes) sets

unfoldable pub parameter_sets : ParameterSets → VideoCodec → List Bytes
parameter_sets sets h264 = sets.h264_sps ∷ sets.h264_pps ∷ []
parameter_sets sets h265 = sets.h265_vps ∷ sets.h265_sps ∷ sets.h265_pps ∷ []

is_kept : Bytes → Bool
is_kept [] = false
is_kept (c ∷ set) = true

unfoldable pub codec_fmtp : ParameterSets → VideoCodec → Bytes
unfolding is_kept base64_encode
codec_fmtp sets h264 =
    if is_kept sets.h264_sps && is_kept sets.h264_pps
    then codes "packetization-mode=1;sprop-parameter-sets="
      ++ (base64_encode sets.h264_sps ++ (codes "," ++ base64_encode sets.h264_pps))
    else []
codec_fmtp sets h265 =
    if is_kept sets.h265_vps && (is_kept sets.h265_sps && is_kept sets.h265_pps)
    then codes "sprop-vps="
      ++ (base64_encode sets.h265_vps
          ++ (codes ";sprop-sps="
              ++ (base64_encode sets.h265_sps
                  ++ (codes ";sprop-pps=" ++ base64_encode sets.h265_pps))))
    else []

-- The rest of the media state of a client. `last_rtcp` is in nanoseconds, 0 before the first report.
pub record LiveClient : Type 0 where
  pub media : ClientMediaState
  pub queue : BoundedFrameQueue
  pub playing : Bool
  pub connected : Bool
  pub channel_id : ℤ
  pub sequence : ℕ
  pub first_rtp_sent : Bool
  pub waiting_for_keyframe : Bool
  pub last_rtcp : ℕ
  pub wires : List Bytes

-- What `send_frame` reads besides the client: the MTU, the two channels of its connection, the
-- parameter sets of the frame's channel, and the clocks.
pub record SendContext : Type 0 where
  pub rtp_mtu : ℕ
  pub rtp_channel : ℕ
  pub rtcp_channel : ℕ
  pub sets : ParameterSets
  pub steady_now : ℕ
  pub seconds_since_1970 : ℕ
  pub fraction_ns : ℕ

-- `send_frame` returns true or false, or an exception goes through it.
pub data Delivery : Type 0 where
  delivered refused : LiveClient → Delivery
  thrown : Delivery

unfoldable pub drop_empty : List Bytes → List Bytes
drop_empty [] = []
drop_empty ([] ∷ nals) = drop_empty nals
drop_empty ((c ∷ nal) ∷ nals) = (c ∷ nal) ∷ drop_empty nals

-- The parameter sets that go in front of a client's first frame.
unfoldable pub leading_sets : SendContext → LiveClient → VideoCodec → List Bytes
unfolding parameter_sets drop_empty
leading_sets x c codec =
    if c.waiting_for_keyframe then drop_empty (parameter_sets x.sets codec) else []

-- A write of a message; `wires` are the ones that succeeded, the last one first.
module _ (takes : List Bytes → Bytes → Bool) where
  unfoldable pub write : Option Bytes → LiveClient → (LiveClient → Delivery) → Delivery
  write none c next = thrown
  write (some wire) c next =
      if takes c.wires wire then next (record c { wires = wire ∷ c.wires }) else refused c

  unfoldable pub count_packet : RtpPacket → LiveClient → LiveClient
  count_packet packet c = record c {
    media = record c.media {
      packet_count = (c.media.packet_count + 1) % 2 ^ 64;
      octet_count = (c.media.octet_count + (length packet.bytes - 12)) % 2 ^ 64;
    };
  }

  unfoldable pub send_packets : ℕ → List RtpPacket → LiveClient → (LiveClient → Delivery) → Delivery
  unfolding write interleaved count_packet
  send_packets channel [] c next = next c
  send_packets channel (packet ∷ packets) c next =
      write (interleaved channel packet.bytes) c
        (λ d. send_packets channel packets (count_packet packet d) next)

  unfoldable pub mark_sent : List RtpPacket → LiveClient → LiveClient
  mark_sent [] c = c
  mark_sent (packet ∷ packets) c = record c { first_rtp_sent = true }

  unfoldable pub send_report : SendContext → LiveClient → Delivery
  unfolding write interleaved make_rtcp_sender_report
  send_report x c =
      let report =
        make_rtcp_sender_report c.media x.seconds_since_1970 x.fraction_ns c.media.last_timestamp in
      if c.last_rtcp == 0 || leb 5000000000 (x.steady_now - c.last_rtcp)
      then write (interleaved x.rtcp_channel report) c
          (λ d. delivered (record d { last_rtcp = x.steady_now }))
      else delivered c

  unfoldable pub send_sent : SendContext → Option Sent → LiveClient → Delivery
  unfolding send_packets mark_sent send_report
  send_sent x none c = thrown
  send_sent x (some s) c =
      send_packets x.rtp_channel s.packets (record c { sequence = s.sequence })
        (λ d. send_report x (mark_sent s.packets d))

  unfoldable pub rtp_context : SendContext → LiveClient → VideoCodec → RtpContext
  rtp_context x c codec = record {
    codec = codec;
    timestamp = c.media.last_timestamp;
    ssrc = c.media.ssrc;
    mtu = x.rtp_mtu;
  }

  unfoldable pub send_frame : SendContext → OwnedLiveFrame → LiveClient → Delivery
  unfolding leading_sets split_access_unit frame_timestamp send_sent rtp_context
  send_frame x frame c =
      let nal_units = leading_sets x c frame.codec ++ split_access_unit frame.bytes in
      let timed = record c {
        waiting_for_keyframe = false;
        media = frame_timestamp c.media frame;
      } in
      if c.waiting_for_keyframe && not frame.key_frame
      then delivered c
      else send_sent x
          (packetize_access_unit (rtp_context x timed frame.codec) nal_units c.sequence) timed
