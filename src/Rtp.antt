-- ===== src/Rtp.antt =====
-- src/live/live_rtsp_server.cpp: RTP packets. Bytes are numbers below 256; `std::uint16_t` and
-- `std::uint32_t` values are numbers below 2 ^ 16 and 2 ^ 32.
pub mod Bits
pub mod Items
pub mod Packets
pub mod Markers
pub mod Receiver
pub mod Reassembly
pub mod Wire
pub mod Split
mod Tests
use Prim.Native.Nat.{bit_and, bit_or}
use rpi_server.Prelude.{
  ℕ, zero, suc, ◌+◌, ◌-◌, ◌*◌, ◌/◌, ◌%◌, ◌^◌, Bool, true, false, ◌&&◌, Option, none, some, List, [],
  ◌∷◌, ◌++◌, min, ltb, leb, ◌==◌, if◌then◌else◌, length, take, drop,
}
use rpi_server.Bytes.{Bytes}
use rpi_server.FrameQueue.{VideoCodec, h264, h265}

-- `kPayloadType`.
abbrev pub payload_type : ℕ
payload_type = 96

unfoldable pub append_u16 : Bytes → ℕ → Bytes
append_u16 output value = output ++ ((value / 2 ^ 8 % 256) ∷ (value % 256) ∷ [])

unfoldable pub append_u32 : Bytes → ℕ → Bytes
append_u32 output value =
    output
    ++ ((value / 2 ^ 24 % 256)
        ∷ (value / 2 ^ 16 % 256)
        ∷ (value / 2 ^ 8 % 256)
        ∷ (value % 256)
        ∷ [])

unfoldable pub make_rtp_packet : Bytes → Bool → ℕ → ℕ → ℕ → Bytes
unfolding append_u16 append_u32
make_rtp_packet payload marker sequence timestamp ssrc =
    let packet = 0x80 ∷ bit_or payload_type (if marker then 0x80 else 0) ∷ [] in
    append_u32 (append_u32 (append_u16 packet sequence) timestamp) ssrc ++ payload

-- `none` is the exception.
unfoldable pub interleaved : ℕ → Bytes → Option Bytes
unfolding append_u16
interleaved channel packet =
    if ltb 65535 (length packet)
    then none
    else some (append_u16 (b'$' ∷ (channel % 256) ∷ []) (length packet) ++ packet)

pub record RtpPacket : Type 0 where
  pub bytes : Bytes
  pub marker : Bool

-- The arguments of `packetize_access_unit` that stay the same.
pub record RtpContext : Type 0 where
  pub codec : VideoCodec
  pub timestamp : ℕ
  pub ssrc : ℕ
  pub mtu : ℕ

-- What the function builds up: `packets`, and the sequence number, which is the caller's.
pub record Sent : Type 0 where
  pub packets : List RtpPacket
  pub sequence : ℕ

-- `packets.push_back({make_rtp_packet(…, sequence++, …), marker})`
unfoldable pub emit : RtpContext → Bytes → Bool → Sent → Sent
unfolding make_rtp_packet
emit c payload marker s = record {
  packets =
      s.packets
      ++ (record {
        bytes = make_rtp_packet payload marker s.sequence c.timestamp c.ssrc;
        marker = marker;
      }
          ∷ []);
  sequence = (s.sequence + 1) % 2 ^ 16;
}

-- `type | (first ? 0x80 : 0) | (end ? 0x40 : 0)`
unfoldable pub fu_byte : ℕ → Bool → Bool → ℕ
fu_byte nal_type first end =
    bit_or (bit_or nal_type (if first then 0x80 else 0)) (if end then 0x40 else 0)

-- The loop over the fragments of one NAL unit, with what is left of it. The two codecs differ in
-- the bytes before the FU header. A round takes one byte at least, so the fuel is the length.
unfoldable pub fu_loop : ℕ → RtpContext → Bytes → ℕ → ℕ → Bool → Bool → Bytes → Sent → Sent
unfolding fu_byte
fu_loop zero c prefix nal_type limit last_nal first rest s = s
fu_loop (suc fuel) c prefix nal_type limit last_nal first [] s = s
fu_loop (suc fuel) c prefix nal_type limit last_nal first (b ∷ rest) s =
    let chunk = min limit (length (b ∷ rest)) in
    let end = chunk == length (b ∷ rest) in
    let payload = prefix ++ (fu_byte nal_type first end ∷ take chunk (b ∷ rest)) in
    fu_loop fuel c prefix nal_type limit last_nal false (drop chunk (b ∷ rest))
      (emit c payload (end && last_nal) s)

-- A NAL unit that is larger than one payload.
fragment_h264 : RtpContext → Bool → ℕ → Bytes → Sent → Sent
unfolding fu_loop
fragment_h264 c last_nal header rest s =
    fu_loop (length rest) c (bit_or (bit_and header 0xe0) 28 ∷ []) (bit_and header 0x1f)
      (c.mtu - 12 - 2) last_nal true rest s

fragment_h265 : RtpContext → Bool → ℕ → Bytes → Sent → Sent
unfolding fu_loop
fragment_h265 c last_nal header [] s = s
fragment_h265 c last_nal header (b ∷ []) s = s
fragment_h265 c last_nal header (header1 ∷ b ∷ rest) s =
    fu_loop (length (b ∷ rest)) c (bit_or (bit_and header 0x81) (49 * 2) ∷ header1 ∷ [])
      (bit_and (header / 2) 0x3f) (c.mtu - 12 - 3) last_nal true (b ∷ rest) s

fragment : VideoCodec → RtpContext → Bool → ℕ → Bytes → Sent → Sent
unfolding fragment_h264 fragment_h265
fragment h264 c last_nal header rest s = fragment_h264 c last_nal header rest s
fragment h265 c last_nal header rest s = fragment_h265 c last_nal header rest s

-- The body of the loop over the NAL units.
packetize_nal : RtpContext → Bool → Bytes → Sent → Sent
unfolding emit
packetize_nal c last_nal [] s = s
packetize_nal c last_nal (header ∷ rest) s =
    if leb (length (header ∷ rest)) (c.mtu - 12)
    then emit c (header ∷ rest) last_nal s
    else fragment c.codec c last_nal header rest s

is_last : List Bytes → Bool
is_last [] = true
is_last (nal ∷ rest) = false

packetize_nals : RtpContext → List Bytes → Sent → Sent
unfolding packetize_nal is_last
packetize_nals c [] s = s
packetize_nals c (nal ∷ rest) s = packetize_nals c rest (packetize_nal c (is_last rest) nal s)

-- The packets and the caller's sequence number after them; `none` is the exception.
pub packetize_access_unit : RtpContext → List Bytes → ℕ → Option Sent
unfolding packetize_nals
packetize_access_unit c nal_units sequence =
    if leb c.mtu 15
    then none
    else some (packetize_nals c nal_units (record { packets = []; sequence = sequence }))
