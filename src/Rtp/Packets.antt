-- ===== src/Rtp/Packets.antt =====
-- The packets of an access unit: their size, their header, and their numbers.
use rpi_server.Prelude.{
  ℕ, zero, suc, ◌+◌, ◌-◌, ◌*◌, ◌%◌, ◌^◌, ◌≤◌, ◌<◌, ◌≡◌, refl, sym, ap, ◌∙◌, Bool, true, false,
  Option, none, some, List, [], ◌∷◌, ◌++◌, append_assoc, append-nil, min, leb, ◌==◌, if_elim,
  if◌then◌else◌, length, take, drop, get_or, arith, length-append, All, All-append, length-take,
}
use rpi_server.Bytes.{Bytes}
use rpi_server.FrameQueue.{VideoCodec, h264, h265}
use rpi_server.Rtp.{
  fu_byte, make_rtp_packet, RtpPacket, RtpContext, Sent, emit, is_last, packetize_access_unit,
}
use rpi_server.Rtp.Items.{
  Item, emit_all, fu_items, h264_items, h265_items, fragment_items, nal_items, unit_items,
  packetize-items,
}

abbrev pub to_packet : RtpContext → ℕ → Item → RtpPacket
to_packet c n (p, m) = record { bytes = make_rtp_packet p m n c.timestamp c.ssrc; marker = m }

-- The packets of some payloads, numbered from `n`.
abbrev pub number : RtpContext → ℕ → List Item → List RtpPacket
number c n [] = []
number c n (i ∷ items) = to_packet c n i ∷ number c ((n + 1) % 2 ^ 16) items

emit_all-packets :
    (c : RtpContext) (items : List Item) (s : Sent)
    → (emit_all c items s).packets ≡ s.packets ++ number c s.sequence items
unfolding emit
emit_all-packets c [] s = sym (append-nil s.packets)
emit_all-packets c ((p, m) ∷ items) s =
    emit_all-packets c items (emit c p m s)
    ∙ append_assoc s.packets (to_packet c s.sequence (p, m) ∷ []) _

emit_all-sequence :
    (c : RtpContext) (items : List Item) (s : Sent)
    → s.sequence < 2 ^ 16
    → (emit_all c items s).sequence ≡ (s.sequence + length items) % 2 ^ 16
unfolding emit
emit_all-sequence c [] s h = omega arith
emit_all-sequence c ((p, m) ∷ items) s h =
    omega (arith, emit_all-sequence c items (emit c p m s) (omega arith))

pub packetize_returns :
    (c : RtpContext) (nals : List Bytes) (n : ℕ)
    → 15 < c.mtu
    → (r : Sent) × (packetize_access_unit c nals n ≡ some r)
unfolding packetize_access_unit
packetize_returns c nals n h =
    if_elim (λ (o : Option Sent). (r : Sent) × (o ≡ some r)) (leb c.mtu 15)
      (λ e. absurd (ground arith)) (λ e. (_, refl))

-- Where `packetize_access_unit` returns: the packets are the numbered payloads.
pub packetize-number :
    (c : RtpContext) (nals : List Bytes) (n : ℕ) (r : Sent)
    → packetize_access_unit c nals n ≡ some r
    → (15 < c.mtu)
      × (r.packets ≡ number c n (unit_items c.codec c.mtu nals))
      × (r ≡ emit_all c (unit_items c.codec c.mtu nals) (record { packets = []; sequence = n }))
packetize-number c nals n r e = from (leb c.mtu 15) refl (sym (packetize-items c nals n) ∙ e)
  where
    items : List Item
    items = unit_items c.codec c.mtu nals

    start : Sent
    start = record { packets = []; sequence = n }

    from :
        (b : Bool)
        → leb c.mtu 15 ≡ b
        → (if b then none else some (emit_all c items start)) ≡ some r
        → (15 < c.mtu) × (r.packets ≡ number c n items) × (r ≡ emit_all c items start)
    from true h q = cc
    from false h q =
        let same : emit_all c items start ≡ r = cc in
        (
          ground arith,
          ap (λ (x : Sent). x.packets) (sym same) ∙ emit_all-packets c items start,
          sym same,
        )

-- The header of a packet that carries the number `n`, and the bound on its size.
pub record HasHeader (c : RtpContext) (n : ℕ) (p : RtpPacket) : Type 0 where
  pub header_whole : 12 ≤ length p.bytes
  pub size_le : length p.bytes ≤ c.mtu
  pub version : get_or p.bytes 0 0 ≡ 0x80
  pub kind : get_or p.bytes 1 0 ≡ 96 + 128 * (if p.marker then 1 else 0)
  pub numbered : get_or p.bytes 2 0 * 2 ^ 8 + get_or p.bytes 3 0 ≡ n
  pub timed :
      get_or p.bytes 4 0 * 2 ^ 24
        + get_or p.bytes 5 0 * 2 ^ 16
        + get_or p.bytes 6 0 * 2 ^ 8
        + get_or p.bytes 7 0
      ≡ c.timestamp
  pub sourced :
      get_or p.bytes 8 0 * 2 ^ 24
        + get_or p.bytes 9 0 * 2 ^ 16
        + get_or p.bytes 10 0 * 2 ^ 8
        + get_or p.bytes 11 0
      ≡ c.ssrc

-- Each packet carries the number after the one before it, modulo 2 ^ 16.
abbrev pub Numbered : RtpContext → ℕ → List RtpPacket → Type 0
Numbered c n [] = Unit
Numbered c n (p ∷ ps) = HasHeader c n p × Numbered c ((n + 1) % 2 ^ 16) ps

to_packet-HasHeader :
    (c : RtpContext) (n : ℕ) (p : Bytes) (m : Bool)
    → c.timestamp < 2 ^ 32
    → c.ssrc < 2 ^ 32
    → n < 2 ^ 16
    → length p + 12 ≤ c.mtu
    → HasHeader c n (to_packet c n (p, m))
unfolding make_rtp_packet
to_packet-HasHeader c n p true ht hs hn l = omega arith
to_packet-HasHeader c n p false ht hs hn l = omega arith

abbrev FitsMtu : ℕ → List Item → Type 0
FitsMtu mtu = All (λ (i : Item). length i.0 + 12 ≤ mtu)

number-Numbered :
    (c : RtpContext) (n : ℕ) (items : List Item)
    → c.timestamp < 2 ^ 32
    → c.ssrc < 2 ^ 32
    → n < 2 ^ 16
    → FitsMtu c.mtu items
    → Numbered c n (number c n items)
number-Numbered c n [] ht hs hn f = tt
number-Numbered c n ((p, m) ∷ items) ht hs hn f = (
  to_packet-HasHeader c n p m ht hs hn f.0,
  number-Numbered c ((n + 1) % 2 ^ 16) items ht hs (omega arith) f.1,
)

fu_items-FitsMtu :
    (fuel : ℕ) (prefix : Bytes) (ty limit mtu : ℕ) (last first : Bool) (rest : Bytes)
    → length prefix + limit + 13 ≤ mtu
    → FitsMtu mtu (fu_items fuel prefix ty limit last first rest)
unfolding fu_items
fu_items-FitsMtu zero prefix ty limit mtu last first rest h = tt
fu_items-FitsMtu (suc fuel) prefix ty limit mtu last first [] h = tt
fu_items-FitsMtu (suc fuel) prefix ty limit mtu last first (b ∷ rest) h = (
  omega (
    arith,
    length-append prefix (fu_byte ty first end ∷ take chunk (b ∷ rest)),
    length-take chunk (b ∷ rest),
  ),
  fu_items-FitsMtu fuel prefix ty limit mtu last false (drop chunk (b ∷ rest)) h,
)
  where
    chunk : ℕ
    chunk = min limit (length (b ∷ rest))

    end : Bool
    end = chunk == length (b ∷ rest)

fragment_items-FitsMtu :
    (k : VideoCodec) (mtu : ℕ) (last : Bool) (h : ℕ) (rest : Bytes)
    → 15 < mtu
    → FitsMtu mtu (fragment_items k mtu last h rest)
unfolding fragment_items h264_items h265_items
fragment_items-FitsMtu h264 mtu last h rest l =
    fu_items-FitsMtu (length rest) _ _ (mtu - 12 - 2) mtu last true rest (omega arith)
fragment_items-FitsMtu h265 mtu last h [] l = tt
fragment_items-FitsMtu h265 mtu last h (b ∷ []) l = tt
fragment_items-FitsMtu h265 mtu last h (h1 ∷ b ∷ rest) l =
    fu_items-FitsMtu (length (b ∷ rest)) _ _ (mtu - 12 - 3) mtu last true (b ∷ rest) (omega arith)

nal_items-FitsMtu :
    (k : VideoCodec) (mtu : ℕ) (last : Bool) (nal : Bytes)
    → 15 < mtu
    → FitsMtu mtu (nal_items k mtu last nal)
unfolding nal_items
nal_items-FitsMtu k mtu last [] l = tt
nal_items-FitsMtu k mtu last (h ∷ rest) l =
    if_elim (FitsMtu mtu) (leb (length (h ∷ rest)) (mtu - 12)) (λ small. (ground arith, tt))
      (λ _. fragment_items-FitsMtu k mtu last h rest l)

unit_items-FitsMtu :
    (k : VideoCodec) (mtu : ℕ) (nals : List Bytes) → 15 < mtu → FitsMtu mtu (unit_items k mtu nals)
unfolding unit_items
unit_items-FitsMtu k mtu [] l = tt
unit_items-FitsMtu k mtu (nal ∷ rest) l =
    All-append _ (nal_items k mtu (is_last rest) nal) (unit_items k mtu rest)
      (nal_items-FitsMtu k mtu (is_last rest) nal l) (unit_items-FitsMtu k mtu rest l)

length-number :
    (c : RtpContext) (n : ℕ) (items : List Item) → length (number c n items) ≡ length items
length-number c n [] = refl
length-number c n (i ∷ items) = ap suc (length-number c ((n + 1) % 2 ^ 16) items)

returned-Numbered :
    (c : RtpContext) (nals : List Bytes) (n : ℕ) (r : Sent)
    → c.timestamp < 2 ^ 32
    → c.ssrc < 2 ^ 32
    → n < 2 ^ 16
    → packetize_access_unit c nals n ≡ some r
    → Numbered c n r.packets × (r.sequence ≡ (n + length r.packets) % 2 ^ 16)
returned-Numbered c nals n r ht hs hn e =
    let (big, packets, whole) = packetize-number c nals n r e in
    (
      rw packets (
          number-Numbered c n (unit_items c.codec c.mtu nals) ht hs hn
            (unit_items-FitsMtu c.codec c.mtu nals big)),
      rw whole (
          emit_all-sequence c (unit_items c.codec c.mtu nals)
            (record { packets = []; sequence = n }) hn
          ∙ omega (
            arith,
            ap length (
                emit_all-packets c (unit_items c.codec c.mtu nals)
                  (record { packets = []; sequence = n })),
            length-number c n (unit_items c.codec c.mtu nals),
          )),
    )

-- For an MTU over 15, a sequence number of 16 bits and a timestamp and SSRC of 32, packets are
-- returned: each of them is at most `mtu` bytes, and has an RTP header of version 2 with payload
-- type 96, its marker bit, the timestamp and the SSRC; the sequence numbers start at the caller's
-- and rise by one modulo 2 ^ 16, and the caller's number afterwards is the next one.
pub packetize-Numbered :
    (c : RtpContext) (nals : List Bytes) (n : ℕ)
    → 15 < c.mtu
    → c.timestamp < 2 ^ 32
    → c.ssrc < 2 ^ 32
    → n < 2 ^ 16
    → (r : Sent) × (packetize_access_unit c nals n ≡ some r)
      × Numbered c n r.packets
      × (r.sequence ≡ (n + length r.packets) % 2 ^ 16)
packetize-Numbered c nals n m ht hs hn =
    let (r, e) = packetize_returns c nals n m in
    let (numbered, next) = returned-Numbered c nals n r ht hs hn e in (r, e, numbered, next)
