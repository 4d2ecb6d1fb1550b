-- ===== src/Live/Start.antt =====
-- src/live/live_rtsp_server.cpp: what a client that waits for a key frame is sent.
use rpi_server.Prelude.{
  ℕ, ◌^◌, ◌≤◌, ◌<◌, ◌≡◌, sym, subst, ◌∙◌, Bool, true, false, not, ◌&&◌, some, List, [], ◌++◌,
  if◌then◌else◌, All, arith,
}
use rpi_server.Bytes.{Bytes}
use rpi_server.FrameQueue.{OwnedLiveFrame}
use rpi_server.Media.{ClientMediaState, frame_timestamp, with_origin}
use rpi_server.Rtp.{RtpContext, Sent, packetize_access_unit}
use rpi_server.Rtp.Split.{split_access_unit}
use rpi_server.Rtp.Receiver.{depacketize, payloads}
use rpi_server.Rtp.Reassembly.{IsNal, nonempty, packetize-reassembles}
use rpi_server.Rtp.Packets.{packetize-Numbered}
use rpi_server.Live.Written.{Writes, Fits, Numbered-Fits, send_sent-Writes}
use rpi_server.Live.Sets.{due_sets, leading_sets-IsSame}
use rpi_server.Live.{
  LiveClient, SendContext, Delivery, delivered, leading_sets, send_sent, rtp_context, send_frame,
}

-- The timestamp of a frame has 32 bits.
frame_timestamp_small :
    (media : ClientMediaState) (frame : OwnedLiveFrame)
    → media.timestamp_origin < 2 ^ 32
    → ((frame_timestamp media frame).last_timestamp < 2 ^ 32)
      × ((frame_timestamp media frame).ssrc ≡ media.ssrc)
unfolding frame_timestamp with_origin
frame_timestamp_small media frame h = ground arith

some_eq : {A : Type 0} {a b : A} → some a ≡ some b → a ≡ b
some_eq e = cc

-- Both theorems on packets speak of the packets that are returned.
both :
    (c : RtpContext) (nals : List Bytes) (n : ℕ)
    → 15 < c.mtu
    → c.mtu ≤ 65535
    → c.timestamp < 2 ^ 32
    → c.ssrc < 2 ^ 32
    → n < 2 ^ 16
    → All (IsNal c.codec) nals
    → (s : Sent) × (packetize_access_unit c nals n ≡ some s)
      × Fits s.packets
      × (depacketize c.codec [] (payloads s.packets) ≡ nonempty nals)
both c nals n m b t s q every =
    let (sent, e, numbered, _) = packetize-Numbered c nals n m t s q in
    let (again, g, heard) = packetize-reassembles c nals n m every in
    let same : again ≡ sent = some_eq (sym g ∙ e) in
    (
      sent,
      e,
      Numbered-Fits c n sent.packets b numbered,
      subst (λ r. depacketize c.codec [] (payloads r.packets) ≡ nonempty nals) same heard,
    )

-- A frame that is not held back: its packets are written in order, on the connection's RTP channel.
-- Then, exactly where none was sent before or the last one is five seconds old, a sender report is
-- written on its RTCP channel, with the SSRC, the clock's time, the frame's timestamp and the
-- counters with those packets added, modulo 2 ^ 32. And what a receiver hears in the packets is
-- the NAL units of the frame, behind the parameter sets of its channel where the client has waited
-- for it. The writes succeed, the MTU is over 15 and at most 65535, the numbers of the client have
-- their widths, the NAL units are of no fragment type, and there is less than a second of
-- nanoseconds.
pub send_frame-Writes :
    (takes : List Bytes → Bytes → Bool)
    (all : (sent : List Bytes) (w : Bytes) → takes sent w ≡ true) (x : SendContext)
    (frame : OwnedLiveFrame) (c : LiveClient)
    → (c.waiting_for_keyframe && not frame.key_frame) ≡ false
    → 15 < x.rtp_mtu
    → x.rtp_mtu ≤ 65535
    → c.media.timestamp_origin < 2 ^ 32
    → c.media.ssrc < 2 ^ 32
    → c.sequence < 2 ^ 16
    → x.fraction_ns < 1000000000
    → All (IsNal frame.codec) (due_sets x c frame.codec ++ split_access_unit frame.bytes)
    → (s : Sent) × Writes x
        (frame_timestamp c.media frame)
        c.last_rtcp
        s.packets
        c.wires
        (send_frame takes x frame c)
      × (depacketize frame.codec [] (payloads s.packets)
          ≡ nonempty (due_sets x c frame.codec ++ split_access_unit frame.bytes))
unfolding send_frame rtp_context
send_frame-Writes takes all x frame c go m b origin ssrc q f every =
    let timed = record c { waiting_for_keyframe = false; media = frame_timestamp c.media frame } in
    let nals = leading_sets x c frame.codec ++ split_access_unit frame.bytes in
    let (heard_same, nals_too) =
      leading_sets-IsSame x c frame.codec (split_access_unit frame.bytes) in
    let (small, same) = frame_timestamp_small c.media frame origin in
    let short : timed.media.ssrc < 2 ^ 32 = subst (λ n. n < 2 ^ 32) (sym same) ssrc in
    let (s, e, fits, heard) =
      both (rtp_context takes x timed frame.codec) nals c.sequence m b small short q
        (nals_too every) in
    let all_but : Delivery → Type 0 = Writes x timed.media c.last_rtcp s.packets c.wires in
    (
      s,
      subst
          (λ held. all_but (
            if held
            then delivered c
            else send_sent takes x
                (packetize_access_unit (rtp_context takes x timed frame.codec) nals c.sequence)
                timed))
          (sym go)
          (subst (λ o. all_but (send_sent takes x o timed)) (sym e)
            (send_sent-Writes takes all x s timed f fits (short, small))),
      heard ∙ heard_same,
    )
