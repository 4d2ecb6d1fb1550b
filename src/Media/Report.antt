-- ===== src/Media/Report.antt =====
-- The fields of a sender report.
use rpi_server.Prelude.{ℕ, ◌+◌, ◌*◌, ◌/◌, ◌%◌, ◌^◌, ◌≡◌, ◌<◌, refl, length, drop, get_or, arith}
use rpi_server.Bytes.{Bytes}
use rpi_server.Rtp.{append_u16, append_u32}
use rpi_server.Rtp.Split.{read_u32}
use rpi_server.Media.{ClientMediaState, make_rtcp_sender_report}

-- The words of a report of 28 bytes, as a receiver reads them.
pub record IsReport (media : ClientMediaState) (seconds fraction timestamp : ℕ) (report : Bytes)
    : Type 0 where
  pub size : length report ≡ 28
  pub version : get_or report 0 0 ≡ 0x80
  pub packet_type : get_or report 1 0 ≡ 200
  pub words : get_or report 2 0 * 256 + get_or report 3 0 ≡ 6
  pub sender : read_u32 (drop 4 report) ≡ media.ssrc
  pub ntp_seconds : read_u32 (drop 8 report) ≡ (seconds + 2208988800) % 2 ^ 32
  pub ntp_fraction : read_u32 (drop 12 report) ≡ fraction * 2 ^ 32 / 1000000000
  pub rtp_time : read_u32 (drop 16 report) ≡ timestamp
  pub packets : read_u32 (drop 20 report) ≡ media.packet_count % 2 ^ 32
  pub octets : read_u32 (drop 24 report) ≡ media.octet_count % 2 ^ 32

-- A sender report of RTCP version 2, with no report block, has 28 bytes, which its length field says in words of 32 bits less one; its
-- fields read back as the SSRC, the time of the clock since 1900 with the part of a second in units
-- of 2 ^ -32 seconds, the RTP timestamp, and the two counters modulo 2 ^ 32, for an SSRC and a
-- timestamp of 32 bits and less than a second of nanoseconds.
pub make_rtcp_sender_report-IsReport :
    (media : ClientMediaState) (seconds fraction timestamp : ℕ)
    → media.ssrc < 2 ^ 32
    → timestamp < 2 ^ 32
    → fraction < 1000000000
    → IsReport media seconds fraction timestamp
        (make_rtcp_sender_report media seconds fraction timestamp)
unfolding make_rtcp_sender_report append_u16 append_u32 read_u32
make_rtcp_sender_report-IsReport media seconds fraction timestamp s t f = record {
  size = refl;
  version = refl;
  packet_type = refl;
  words = omega arith;
  sender = omega arith;
  ntp_seconds = omega arith;
  ntp_fraction = omega arith;
  rtp_time = omega arith;
  packets = omega arith;
  octets = omega arith;
}
