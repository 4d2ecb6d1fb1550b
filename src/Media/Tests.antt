-- ===== src/Media/Tests.antt =====
-- Runs of the timestamps and a report.
use rpi_server.Prelude.{◌+◌, ◌-◌, ◌*◌, ◌/◌, ◌%◌, ◌^◌, ◌≡◌, refl, true, [], ◌∷◌, arith}
use rpi_server.Prelude.Int.{pos, negsuc}
use rpi_server.FrameQueue.{OwnedLiveFrame, h264}
use rpi_server.Media.{ClientMediaState, ticks, frame_timestamp, make_rtcp_sender_report}
use rpi_server.Media.Report.{IsReport, make_rtcp_sender_report-IsReport}
use rpi_server.Media.Clock.{timestamp-exact}

abbrev media : ClientMediaState
media = record {
  ssrc = 77;
  timestamp_origin = 4294967000;
  first_pts_ns = pos 1000000000;
  last_timestamp = 5;
  packet_count = 3;
  octet_count = 3000;
}

abbrev frame : OwnedLiveFrame
frame = record {
  bytes = 1 ∷ [];
  pts_ns = pos 2000000000;
  duration_ns = negsuc 0;
  key_frame = true;
  channel_id = 1;
  codec = h264;
}

-- A second after the first frame the timestamp is 90000 further on.
one_second : (frame_timestamp media frame).last_timestamp ≡ (4294967000 + 90000) % 2 ^ 32
unfolding frame_timestamp
one_second = refl

-- A nanosecond over the longest span the ticks are those of a negative product.
ticks_overflow : ticks 102481911520609 ≡ 3661529852
unfolding ticks
ticks_overflow = refl

timestamp-exact_example :
    ((frame_timestamp media frame).last_timestamp
      ≡ (media.timestamp_origin + (2000000000 - 1000000000) * 9 / 100000) % 2 ^ 32)
    × ((frame_timestamp media frame).first_pts_ns ≡ pos 1000000000)
timestamp-exact_example = timestamp-exact media frame 1000000000 2000000000 refl refl (omega arith)

make_rtcp_sender_report-IsReport_example :
    IsReport media 1700000000 500000000 90000
      (make_rtcp_sender_report media 1700000000 500000000 90000)
make_rtcp_sender_report-IsReport_example =
    make_rtcp_sender_report-IsReport media 1700000000 500000000 90000 (omega arith) (omega arith)
      (omega arith)
