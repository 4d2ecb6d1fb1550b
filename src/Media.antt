-- ===== src/Media.antt =====
-- src/live/live_rtsp_server.cpp: the media state of a live client, the RTP timestamps of frames and
-- the RTCP sender reports. The clock's seconds and nanoseconds are arguments.
pub mod Clock
pub mod Report
mod Tests
use rpi_server.Prelude.{
  ℕ, zero, suc, ◌+◌, ◌-◌, ◌*◌, ◌/◌, ◌%◌, ◌^◌, Bool, true, false, List, [], ◌∷◌, ltb, ◌==◌,
  if◌then◌else◌,
}
use rpi_server.Prelude.Int.{ℤ, pos, negsuc, pos_part, neg_part, ltb_ℤ}
use rpi_server.Bytes.{Bytes}
use rpi_server.FrameQueue.{OwnedLiveFrame}
use rpi_server.Rtp.{append_u16, append_u32}

-- The fields that timestamps and reports read and write.
pub record ClientMediaState : Type 0 where
  pub ssrc : ℕ
  pub timestamp_origin : ℕ
  pub first_pts_ns : ℤ
  pub last_timestamp : ℕ
  pub packet_count : ℕ
  pub octet_count : ℕ

-- `static_cast<std::uint32_t>((ns * 90000LL) / 1000000000LL)` for `ns` that is not negative. The
-- product is one of 64 bits with a sign, which wraps.
unfoldable pub ticks : ℕ → ℕ
ticks ns =
    let product = ns * 90000 % 2 ^ 64 in
    if ltb product (2 ^ 63)
    then product / 1000000000 % 2 ^ 32
    else (2 ^ 32 - (2 ^ 64 - product) / 1000000000 % 2 ^ 32) % 2 ^ 32

-- `std::max<std::int64_t>(0, pts - first)`
unfoldable pub since : ℤ → ℤ → ℕ
since pts first = (pos_part pts + neg_part first) - (pos_part first + neg_part pts)

unfoldable pub with_origin : ClientMediaState → ℕ → ClientMediaState
with_origin media timestamp = record media {
  last_timestamp = if timestamp == 0 then media.timestamp_origin else timestamp;
}

unfoldable pub first_pts : ClientMediaState → ℤ → ℤ
first_pts media pts = if ltb_ℤ media.first_pts_ns (pos 0) then pts else media.first_pts_ns

unfoldable pub duration_of : ℤ → ℕ
duration_of duration_ns = if ltb_ℤ (pos 0) duration_ns then pos_part duration_ns else 33333333

-- The state after it; the function returns its `last_timestamp`.
unfoldable pub frame_timestamp : ClientMediaState → OwnedLiveFrame → ClientMediaState
unfolding ticks since with_origin first_pts duration_of
frame_timestamp media frame =
    let first = first_pts media frame.pts_ns in
    if ltb_ℤ frame.pts_ns (pos 0)
    then with_origin media ((media.last_timestamp + ticks (duration_of frame.duration_ns)) % 2 ^ 32)
    else record media {
      first_pts_ns = first;
      last_timestamp = (media.timestamp_origin + ticks (since frame.pts_ns first)) % 2 ^ 32;
    }

unfoldable pub make_rtcp_sender_report : ClientMediaState → ℕ → ℕ → ℕ → Bytes
unfolding append_u16 append_u32
make_rtcp_sender_report media seconds_since_1970 fraction_ns rtp_timestamp =
    let ntp_seconds = (seconds_since_1970 + 2208988800) % 2 ^ 32 in
    let ntp_fraction = fraction_ns * 2 ^ 32 % 2 ^ 64 / 1000000000 % 2 ^ 32 in
    append_u32
      (append_u32
        (append_u32
          (append_u32
            (append_u32 (append_u32 (append_u16 (0x80 ∷ 200 ∷ []) 6) media.ssrc) ntp_seconds)
            ntp_fraction)
          rtp_timestamp)
        (media.packet_count % 2 ^ 32))
      (media.octet_count % 2 ^ 32)
