-- ===== src/Ingest/Tests.antt =====
-- Runs of the ingest.
use rpi_server.Prelude.{
  ℕ, suc, ◌*◌, ◌≤◌, ◌≡◌, ◌⊎◌, inr, refl, true, false, some, List, [], ◌∷◌, ◌++◌, ltb, arith,
}
use rpi_server.Prelude.Int.{pos}
use rpi_server.Bytes.{codes}
use rpi_server.FrameQueue.{h264}
use rpi_server.Ingest.{
  ChannelIngestConfig, redact_rtsp_userinfo, redact_userinfo_loop, quote_for_gst_parse,
}
use rpi_server.Ingest.Quote.{read_value, read_value-quote_for_gst_parse}
use rpi_server.Ingest.Attempt.{
  ingest_buffer, live_handoff, silent, error_message, Round, Attempt, new_ingest, run_attempt,
}
use rpi_server.Ingest.Waiting.{Waited, wait_before_reconnect, wait_before_reconnect-Ends}
use rpi_server.Ingest.Run.{Turn, run}
use rpi_server.Ingest.Account.{OnReturn}
use rpi_server.Ingest.Totals.{Totals, run-Totals}
use rpi_server.Ingest.Ends.{Finishes, run_attempt-Finishes}

abbrev front_door : ChannelIngestConfig
front_door = record {
  rtsp_location = codes "rtsp://10.0.0.2/0";
  camera_user = codes "admin";
  camera_password = codes "pw";
  output_dir = codes "/rec/ch2";
  camera_channel = pos 0;
  channel_id = pos 2;
  codec = h264;
  latency_ms = pos 200;
  segment_seconds = 60;
  reconnect_delay_ms = pos 250;
  startup_timeout_ms = pos 5000;
  live_queue_max_buffers = 1;
}

redacted_userinfo :
    redact_rtsp_userinfo (codes "no rtsp://admin:pw@10.0.0.2/0 and rtsp://a/b@c")
    ≡ codes "no rtsp://<redacted>@10.0.0.2/0 and rtsp://a/b@c"
unfolding redact_rtsp_userinfo redact_userinfo_loop
redacted_userinfo = refl

-- A second with a first buffer and an error of the pipeline.
abbrev broken_rounds : List Round
broken_rounds =
    record { callbacks = []; running = true; now = 1100; message = silent }
    ∷ record {
      callbacks = ingest_buffer ∷ live_handoff ∷ [];
      running = true;
      now = 1600;
      message = error_message;
    }
    ∷ []

abbrev broken : Attempt
broken = record {
  pipeline_made = true;
  elements_found = true;
  started_at = 1000;
  enters_playing = true;
  rounds = broken_rounds;
  eos_sent = true;
  drained_from = 0;
  drain_rounds = [];
  running_after = true;
}

-- A camera that says nothing up to the deadline.
abbrev mute_round : Round
mute_round = record { callbacks = live_handoff ∷ []; running = true; now = 7000; message = silent }

abbrev drain_round : Round
drain_round = record { callbacks = []; running = false; now = 17500; message = silent }

abbrev mute : Attempt
mute = record {
  pipeline_made = true;
  elements_found = true;
  started_at = 2000;
  enters_playing = true;
  rounds = mute_round ∷ [];
  eos_sent = true;
  drained_from = 7000;
  drain_rounds = drain_round ∷ [];
  running_after = true;
}

abbrev turns : List Turn
turns =
    record { running = true; attempt = broken; running_after = true; waiting = λ i. true }
    ∷ record { running = true; attempt = mute; running_after = true; waiting = λ i. ltb i 2 }
    ∷ []

read_value-quote_for_gst_parse_example :
    read_value (quote_for_gst_parse (codes "/rec/\"a\"\\") ++ codes " ! sink")
    ≡ some (codes "/rec/\"a\"\\", codes " ! sink")
read_value-quote_for_gst_parse_example =
    read_value-quote_for_gst_parse (codes "/rec/\"a\"\\") (codes " ! sink")

wait_before_reconnect-Ends_example :
    (w : Waited) × (wait_before_reconnect (λ i. ltb i 2) (pos 250) ≡ some w)
    × (w.result ≡ ltb (suc w.sleeps) 2)
    × ((ltb w.sleeps 2 ≡ false) ⊎ (w.slept_ms ≡ 250))
    × (w.slept_ms ≤ 250)
    × ((i : ℕ) → ltb i 2 ≡ false → (w.sleeps ≤ i) × (w.slept_ms ≤ 100 * i))
wait_before_reconnect-Ends_example = wait_before_reconnect-Ends (λ i. ltb i 2) (pos 250)

run-Totals_example : OnReturn Totals (run front_door turns new_ingest)
run-Totals_example = run-Totals front_door turns (omega arith)

run_attempt-Finishes_example : Finishes (run_attempt front_door mute new_ingest)
run_attempt-Finishes_example =
    run_attempt-Finishes front_door mute new_ingest 0 0 mute_round drain_round refl
      (inr (omega arith, (tt, tt))) refl (omega arith)
