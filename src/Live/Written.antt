-- ===== src/Live/Written.antt =====
-- src/live/live_rtsp_server.cpp: the writes of `send_frame`: the packets, and the sender report.
use rpi_server.Prelude.{
  ℕ, ◌+◌, ◌-◌, ◌%◌, ◌^◌, ◌≤◌, ◌<◌, ◌≡◌, ◌⊎◌, inl, inr, refl, sym, ap, subst, ◌∙◌, Bool, true, false,
  ◌||◌, some, List, [], ◌∷◌, leb, ◌==◌, if_elim, length, All, arith,
}
use rpi_server.Bytes.{Bytes}
use rpi_server.Media.{ClientMediaState, make_rtcp_sender_report}
use rpi_server.Media.Report.{IsReport, make_rtcp_sender_report-IsReport}
use rpi_server.Rtp.{interleaved, RtpPacket, RtpContext, Sent}
use rpi_server.Rtp.Wire.{Carries, interleaved-Carries}
use rpi_server.Rtp.Packets.{Numbered}
use rpi_server.Live.{
  LiveClient, SendContext, Delivery, delivered, write, count_packet, send_packets, mark_sent,
  send_report, send_sent,
}

-- The packets are written in their order, each in a frame on the channel, the last one first in
-- `after`.
abbrev pub Carried : ℕ → List RtpPacket → List Bytes → List Bytes → Type 0
Carried channel [] before after = after ≡ before
Carried channel (p ∷ packets) before after =
    (w : Bytes) × Carries channel p.bytes w × Carried channel packets (w ∷ before) after

pub Fits : List RtpPacket → Type 0
Fits packets = All (λ (p : RtpPacket). length p.bytes ≤ 65535) packets

pub Numbered-Fits :
    (c : RtpContext) (n : ℕ) (packets : List RtpPacket)
    → c.mtu ≤ 65535
    → Numbered c n packets
    → Fits packets
unfolding Fits
Numbered-Fits c n [] h _ = _
Numbered-Fits c n (p ∷ packets) h (header, later) =
    (omega (arith, header.size_le), Numbered-Fits c ((n + 1) % 2 ^ 16) packets h later)

-- A write that succeeds, of a packet that fits its frame.
framed :
    (channel : ℕ) (packet : Bytes)
    → length packet ≤ 65535
    → (w : Bytes) × (interleaved channel packet ≡ some w) × Carries channel packet w
framed channel packet h = elim (interleaved-Carries channel packet) [
  | inl long ↦ absurd (omega (arith, long.0))
  | inr found ↦ found
]

abbrev pub octets : List RtpPacket → ℕ
octets [] = 0
octets (p ∷ packets) = (length p.bytes - 12) + octets packets

-- The media state with the packets added to its counters.
abbrev pub with_packets : List RtpPacket → ClientMediaState → ClientMediaState
with_packets packets m = record m {
  packet_count = m.packet_count + length packets;
  octet_count = m.octet_count + octets packets;
}

-- At most one report every five seconds.
abbrev pub is_due : ℕ → ℕ → Bool
is_due now last_rtcp = last_rtcp == 0 || leb 5000000000 (now - last_rtcp)

-- A sender report of the client's counters, the frame's timestamp and the clock's time, in a frame
-- on the RTCP channel.
abbrev pub Reports : SendContext → ClientMediaState → List RtpPacket → Bytes → Type 0
Reports x m packets w =
    (report : Bytes) × IsReport (with_packets packets m) x.seconds_since_1970 x.fraction_ns
      m.last_timestamp report
    × Carries x.rtcp_channel report w

-- A delivery in which the packets are what is written, and behind them a report where it is due.
abbrev pub Writes :
    SendContext → ClientMediaState → ℕ → List RtpPacket → List Bytes → Delivery → Type 0
Writes x m last_rtcp packets before d =
    (e : LiveClient) × (d ≡ delivered e)
    × (middle : List Bytes) × Carried x.rtp_channel packets before middle
    × (((is_due x.steady_now last_rtcp ≡ false) × (e.wires ≡ middle))
        ⊎ ((is_due x.steady_now last_rtcp ≡ true)
            × ((w : Bytes) × Reports x m packets w × (e.wires ≡ w ∷ middle))))

-- The counters count modulo 2 ^ 64, of which a report has the low 32 bits.
with_packets-nil :
    (x : SendContext) (m : ClientMediaState) (report : Bytes)
    → IsReport m x.seconds_since_1970 x.fraction_ns m.last_timestamp report
    → IsReport (with_packets [] m) x.seconds_since_1970 x.fraction_ns m.last_timestamp report
with_packets-nil x m report r = record {
  size = r.size;
  version = r.version;
  packet_type = r.packet_type;
  words = r.words;
  sender = r.sender;
  ntp_seconds = r.ntp_seconds;
  ntp_fraction = r.ntp_fraction;
  rtp_time = r.rtp_time;
  packets = omega (arith, r.packets);
  octets = omega (arith, r.octets);
}

module _ (takes : List Bytes → Bytes → Bool)
    (all : (sent : List Bytes) (w : Bytes) → takes sent w ≡ true) where
  with_packets-cons :
      (x : SendContext) (p : RtpPacket) (packets : List RtpPacket) (c : LiveClient) (report : Bytes)
      → IsReport
          (with_packets packets (count_packet takes p c).media)
          x.seconds_since_1970
          x.fraction_ns
          c.media.last_timestamp
          report
      → IsReport
          (with_packets (p ∷ packets) c.media)
          x.seconds_since_1970
          x.fraction_ns
          c.media.last_timestamp
          report
  unfolding count_packet
  with_packets-cons x p packets c report r = record {
    size = r.size;
    version = r.version;
    packet_type = r.packet_type;
    words = r.words;
    sender = r.sender;
    ntp_seconds = r.ntp_seconds;
    ntp_fraction = r.ntp_fraction;
    rtp_time = r.rtp_time;
    packets = omega (arith, r.packets);
    octets = omega (arith, r.octets);
  }

  written :
      (w : Bytes) (c : LiveClient) (next : LiveClient → Delivery)
      → write takes (some w) c next ≡ next (record c { wires = w ∷ c.wires })
  unfolding write
  written w c next = rw (all c.wires w) refl

  send_report-Writes :
      (x : SendContext) (c : LiveClient)
      → c.media.ssrc < 2 ^ 32
      → c.media.last_timestamp < 2 ^ 32
      → x.fraction_ns < 1000000000
      → Writes x c.media c.last_rtcp [] c.wires (send_report takes x c)
  unfolding send_report
  send_report-Writes x c s t f =
      let report =
        make_rtcp_sender_report c.media x.seconds_since_1970 x.fraction_ns c.media.last_timestamp in
      let read =
        make_rtcp_sender_report-IsReport c.media x.seconds_since_1970 x.fraction_ns
          c.media.last_timestamp s t f in
      let next : LiveClient → Delivery = λ d. delivered (record d { last_rtcp = x.steady_now }) in
      let (w, e, carries) = framed x.rtcp_channel report (omega (arith, read.size)) in
      if_elim (Writes x c.media c.last_rtcp [] c.wires) (is_due x.steady_now c.last_rtcp)
        (λ due. (
          record c { wires = w ∷ c.wires; last_rtcp = x.steady_now },
          ap (λ o. write takes o c next) e ∙ written w c next,
          c.wires,
          refl,
          inr (due, (w, (report, with_packets-nil x c.media report read, carries), refl)),
        ))
        (λ early. (c, refl, c.wires, refl, inl (early, refl)))

  abbrev Ready : LiveClient → Type 0
  Ready c = (c.media.ssrc < 2 ^ 32) × (c.media.last_timestamp < 2 ^ 32)

  Writes-cons :
      (x : SendContext) (p : RtpPacket) (packets : List RtpPacket) (c : LiveClient) (w : Bytes)
      (d : Delivery)
      → Carries x.rtp_channel p.bytes w
      → Writes x (count_packet takes p c).media c.last_rtcp packets (w ∷ c.wires) d
      → Writes x c.media c.last_rtcp (p ∷ packets) c.wires d
  unfolding count_packet
  Writes-cons x p packets c w d carries (e, g, middle, carried, inl early) =
      (e, g, middle, (w, carries, carried), inl early)
  Writes-cons x p packets c w d carries
        (e, g, middle, carried, inr (due, (v, (report, r, framed_report), h))) =
      (
        e,
        g,
        middle,
        (w, carries, carried),
        inr (due, (v, (report, with_packets-cons x p packets c report r, framed_report), h)),
      )

  send_packets-Writes :
      (x : SendContext) (packets : List RtpPacket) (c : LiveClient) (next : LiveClient → Delivery)
      → Fits packets
      → Ready c
      → ((d : LiveClient) → Ready d → Writes x d.media d.last_rtcp [] d.wires (next d))
      → Writes x c.media c.last_rtcp packets c.wires
          (send_packets takes x.rtp_channel packets c next)
  unfolding send_packets count_packet Fits
  send_packets-Writes x [] c next fits ready f = f c ready
  send_packets-Writes x (p ∷ packets) c next (fit, fits) ready f =
      let (w, e, carries) = framed x.rtp_channel p.bytes fit in
      let later : LiveClient → Delivery =
        λ d. send_packets takes x.rtp_channel packets (count_packet takes p d) next in
      let sent = record c { wires = w ∷ c.wires } in
      subst (Writes x c.media c.last_rtcp (p ∷ packets) c.wires)
        (sym (ap (λ o. write takes o c later) e ∙ written w c later))
        (Writes-cons x p packets c w (later sent) carries
          (send_packets-Writes x packets (count_packet takes p sent) next fits ready f))

  reports :
      (x : SendContext) (packets : List RtpPacket) (d : LiveClient)
      → x.fraction_ns < 1000000000
      → Ready d
      → Writes x d.media d.last_rtcp [] d.wires (send_report takes x (mark_sent takes packets d))
  unfolding mark_sent
  reports x [] d f (s, t) = send_report-Writes x d s t f
  reports x (p ∷ packets) d f (s, t) =
      send_report-Writes x (record d { first_rtp_sent = true }) s t f

  pub send_sent-Writes :
      (x : SendContext) (s : Sent) (c : LiveClient)
      → x.fraction_ns < 1000000000
      → Fits s.packets
      → Ready c
      → Writes x c.media c.last_rtcp s.packets c.wires (send_sent takes x (some s) c)
  unfolding send_sent
  send_sent-Writes x s c f fits ready =
      send_packets-Writes x s.packets (record c { sequence = s.sequence })
        (λ d. send_report takes x (mark_sent takes s.packets d)) fits ready
        (λ d r. reports x s.packets d f r)
