-- ===== src/Live/Session/Kept.antt =====
-- src/live/live_rtsp_server.cpp: what `send_frame` leaves alone of a client.
use rpi_server.Prelude.{
  ℕ, ◌≡◌, refl, Bool, false, not, ◌&&◌, ◌||◌, Option, none, some, List, [], ◌∷◌, ◌++◌, leb, ◌-◌,
  ◌==◌, if_elim,
}
use rpi_server.Bytes.{Bytes}
use rpi_server.FrameQueue.{OwnedLiveFrame}
use rpi_server.Media.{frame_timestamp, make_rtcp_sender_report}
use rpi_server.Rtp.Split.{split_access_unit}
use rpi_server.Rtp.{interleaved, RtpPacket, Sent, packetize_access_unit}
use rpi_server.Live.{
  LiveClient, SendContext, Delivery, delivered, refused, thrown, leading_sets, write, count_packet,
  rtp_context, send_packets, mark_sent, send_report, send_sent, send_frame,
}

-- The sending of frames leaves alone what says whether and what a client is sent.
abbrev pub Same : LiveClient → LiveClient → Type 0
Same c d = (d.playing ≡ c.playing) × (d.channel_id ≡ c.channel_id)

abbrev pub Kept : LiveClient → Delivery → Type 0
Kept c (delivered d) = Same c d
Kept c (refused d) = Same c d
Kept c thrown = Unit

module _ (takes : List Bytes → Bytes → Bool) where
  write-Kept :
      (b : LiveClient) (wire : Option Bytes) (c : LiveClient) (next : LiveClient → Delivery)
      → Same b c
      → ((d : LiveClient) → Same b d → Kept b (next d))
      → Kept b (write takes wire c next)
  unfolding write
  write-Kept b none c next s k = tt
  write-Kept b (some wire) c next s k =
      if_elim (Kept b) (takes c.wires wire) (λ yes_taken. k _ s) (λ not_taken. s)

  send_packets-Kept :
      (b : LiveClient) (channel : ℕ) (packets : List RtpPacket) (c : LiveClient)
      (next : LiveClient → Delivery)
      → Same b c
      → ((d : LiveClient) → Same b d → Kept b (next d))
      → Kept b (send_packets takes channel packets c next)
  unfolding send_packets count_packet
  send_packets-Kept b channel [] c next s k = k c s
  send_packets-Kept b channel (p ∷ packets) c next s k =
      write-Kept b _ c _ s
        (λ d t. send_packets-Kept b channel packets (count_packet takes p d) next t k)

  send_report-Kept :
      (b : LiveClient) (x : SendContext) (c : LiveClient)
      → Same b c
      → Kept b (send_report takes x c)
  unfolding send_report
  send_report-Kept b x c s =
      if_elim (Kept b) (c.last_rtcp == 0 || leb 5000000000 (x.steady_now - c.last_rtcp))
        (λ due.
          write-Kept b
            (interleaved x.rtcp_channel (
              make_rtcp_sender_report c.media x.seconds_since_1970 x.fraction_ns
                c.media.last_timestamp))
            c (λ d. delivered (record d { last_rtcp = x.steady_now })) s (λ d t. t))
        (λ early. s)

  mark_sent-Same :
      (b : LiveClient) (packets : List RtpPacket) (c : LiveClient)
      → Same b c
      → Same b (mark_sent takes packets c)
  unfolding mark_sent
  mark_sent-Same b [] c s = s
  mark_sent-Same b (p ∷ packets) c s = s

  send_sent-Kept :
      (b : LiveClient) (x : SendContext) (sent : Option Sent) (c : LiveClient)
      → Same b c
      → Kept b (send_sent takes x sent c)
  unfolding send_sent
  send_sent-Kept b x none c s = tt
  send_sent-Kept b x (some sent) c s =
      send_packets-Kept b x.rtp_channel sent.packets (record c { sequence = sent.sequence })
        (λ d. send_report takes x (mark_sent takes sent.packets d)) s
        (λ d t. send_report-Kept b x _ (mark_sent-Same b sent.packets d t))

  pub send_frame-Kept :
      (x : SendContext) (frame : OwnedLiveFrame) (c : LiveClient)
      → Kept c (send_frame takes x frame c)
  unfolding send_frame
  send_frame-Kept x frame c =
      if_elim (Kept c) (c.waiting_for_keyframe && not frame.key_frame) (λ held. (refl, refl))
        (λ go.
          let timed = record c {
            waiting_for_keyframe = false;
            media = frame_timestamp c.media frame;
          } in
          send_sent-Kept c x
            (packetize_access_unit (rtp_context takes x timed frame.codec)
              (leading_sets x c frame.codec ++ split_access_unit frame.bytes) c.sequence)
            timed (refl, refl))
