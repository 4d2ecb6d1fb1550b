-- ===== src/Startup/Accepted.antt =====
-- src/main.cpp: an accepted command line lets every part be made.
use rpi_server.Prelude.{
  suc, ◌≡◌, ◌≢◌, refl, sym, ap, subst, true, false, ◌&&◌, ◌||◌, Option, some, List, [], ◌∷◌, map,
  if_elim, length, All, arith,
}
use rpi_server.Prelude.Int.{ℤ, pos, ltb_ℤ, leb_ℤ}
use rpi_server.Bytes.{Bytes}
use rpi_server.Config.{VmsConfig, parse_vms_args, parsed}
use rpi_server.Config.Ranges.{IsInRange, IsUsable, parse_vms_args-IsUsable}
use rpi_server.Channels.{
  ChannelMapping, Seen, is_entry, added, mark, nothing_seen, accepts_from, accepts,
  parse_channel_map,
}
use rpi_server.Channels.Mapping.{parse_channel_map-accepts}
use rpi_server.Ingest.{ChannelIngestConfig, accepts_config}
use rpi_server.Live.Channels.{LiveRtspServerConfig, ids_accepted, with_channels, new_server}
use rpi_server.Startup.{
  channel_output_dir, with_output_dir, index_takes, ingest_config, more, ingest_configs,
  live_channel, live_config, workers_accepted, made, wire_up,
}

accepts-from :
    (ms : List ChannelMapping) (delay : ℤ)
    → accepts ms delay ≡ true
    → accepts_from ms nothing_seen ≡ true
unfolding accepts
accepts-from ms delay h = ground arith

entries :
    (ms : List ChannelMapping) (s : Seen)
    → accepts_from ms s ≡ true
    → All (λ (m : ChannelMapping). is_entry m ≡ true) ms
unfolding accepts_from
entries [] s h = _
entries (m ∷ ms) s h = (ground arith, entries ms (added s m) (ground arith))

ids :
    (c : VmsConfig) (ms : List ChannelMapping) (s : Seen)
    → accepts_from ms s ≡ true
    → ids_accepted (map (live_channel c) ms) s.channel_seen ≡ true
unfolding accepts_from ids_accepted added mark is_entry live_channel
ids c [] s h = refl
ids c (m ∷ ms) s h = let later = ids c ms (added s m) (ground arith) in ground arith

inside :
    (m : ChannelMapping)
    → is_entry m ≡ true
    → (ltb_ℤ m.channel_id (pos 1) || ltb_ℤ (pos 4) m.channel_id) ≢ true
unfolding is_entry
inside m h outside = absurd (ground arith)

untaken : (m : ChannelMapping) → is_entry m ≡ true → index_takes m ≢ false
unfolding is_entry index_takes
untaken m h left = absurd (ground arith)

-- A configuration that its constructors accept.
abbrev One : Option ChannelIngestConfig → Type 0
One o = (i : ChannelIngestConfig) × (o ≡ some i) × (accepts_config i ≡ true)

abbrev Every : List ChannelMapping → Option (List ChannelIngestConfig) → Type 0
Every ms o =
    (is : List ChannelIngestConfig) × (o ≡ some is)
    × (workers_accepted is ≡ true)
    × (length is ≡ length ms)

module _ (join : Bytes → Bytes → Bytes) (c : VmsConfig) (r : IsInRange c) where
  directory :
      (m : ChannelMapping) (dir : Bytes)
      → is_entry m ≡ true
      → One (with_output_dir join c m (some dir))
  unfolding with_output_dir is_entry accepts_config
  directory m dir h =
      let positive : ltb_ℤ (pos 0) c.ingest_startup_timeout_ms ≡ true = ground (arith, r.7) in
      (_, refl, ground arith)

  one : (m : ChannelMapping) → is_entry m ≡ true → One (ingest_config join c m)
  unfolding ingest_config channel_output_dir index_takes
  one m h =
      if_elim One (index_takes m)
        (λ taken.
          if_elim (λ (d : Option Bytes). One (with_output_dir join c m d))
            (ltb_ℤ m.channel_id (pos 1) || ltb_ℤ (pos 4) m.channel_id)
            (λ outside. absurd (inside m h outside)) (λ fine. directory m _ h))
        (λ left. absurd (untaken m h left))

  both :
      (m : ChannelMapping) (ms : List ChannelMapping) (o : Option ChannelIngestConfig)
      (os : Option (List ChannelIngestConfig))
      → One o
      → Every ms os
      → Every (m ∷ ms) (more o os)
  unfolding more workers_accepted
  both m ms o os (i, e, a) (is, f, b, l) = (i ∷ is, rw (e, f) refl, rw (a, b) refl, ap suc l)

  ingest_configs-Every :
      (ms : List ChannelMapping)
      → All (λ (m : ChannelMapping). is_entry m ≡ true) ms
      → Every ms (ingest_configs join c ms)
  unfolding ingest_configs workers_accepted
  ingest_configs-Every [] h = ([], refl, refl, refl)
  ingest_configs-Every (m ∷ ms) (h, hs) =
      both m ms (ingest_config join c m) (ingest_configs join c ms) (one m h)
        (ingest_configs-Every ms hs)

  -- The constructor of the live server keeps its configuration.
  new_server-some :
      (m : ChannelMapping) (ms : List ChannelMapping)
      → IsUsable c
      → accepts_from (m ∷ ms) nothing_seen ≡ true
      → new_server (live_config c (m ∷ ms)) ≡ some (live_config c (m ∷ ms))
  unfolding new_server with_channels live_config nothing_seen
  new_server-some m ms u h =
      let distinct = ids c (m ∷ ms) nothing_seen h in
      let listener : (leb_ℤ c.rtsp_port (pos 0) && leb_ℤ c.rtsps_port (pos 0)) ≡ false =
        ground (arith, u.2, r.9, r.10) in
      rw (distinct, listener, u.3) refl

made-some :
    (c : VmsConfig) (ms : List ChannelMapping) (is : List ChannelIngestConfig)
    (live : LiveRtspServerConfig)
    → accepts ms c.channel_start_delay_ms ≡ true
    → workers_accepted is ≡ true
    → made c ms (some is) (some live) ≡ some (is, live)
unfolding made
made-some c ms is live a w = rw (a, w) refl

accepts-nil : (delay : ℤ) → accepts [] delay ≢ true
unfolding accepts
accepts-nil delay h = absurd cc

all_parts :
    (join : Bytes → Bytes → Bytes) (c : VmsConfig) (ms : List ChannelMapping)
    → IsUsable c
    → accepts ms c.channel_start_delay_ms ≡ true
    → (is : List ChannelIngestConfig) × (wire_up join c ms ≡ some (is, live_config c ms))
      × (workers_accepted is ≡ true)
      × (length is ≡ length ms)
unfolding wire_up
all_parts join c [] u a = absurd (accepts-nil c.channel_start_delay_ms a)
all_parts join c (m ∷ ms) u a =
    let from = accepts-from (m ∷ ms) c.channel_start_delay_ms a in
    let (is, e, w, l) =
      ingest_configs-Every join c u.0 (m ∷ ms) (entries (m ∷ ms) nothing_seen from) in
    let live = live_config c (m ∷ ms) in
    (
      is,
      subst (λ o. made c (m ∷ ms) o (new_server live) ≡ some (is, live)) (sym e)
          (subst (λ o. made c (m ∷ ms) (some is) o ≡ some (is, live))
            (sym (new_server-some join c u.0 m ms u from)) (made-some c (m ∷ ms) is live a w)),
      w,
      l,
    )

-- With a command line that is accepted and whose channel map is, every part is made: the index
-- takes each channel, the configuration of each channel's ingest passes the tests of the ingest's
-- constructor, the live server's configuration, with the same channels in the same order, those of
-- its own, and the channel manager is made with one worker for each channel.
pub wire_up_made :
    (join : Bytes → Bytes → Bytes) (line : Option Bytes) (args : List Bytes) (c : VmsConfig)
    (ms : List ChannelMapping)
    → parse_vms_args join line args ≡ parsed c
    → parse_channel_map c.channel_map ≡ some ms
    → (is : List ChannelIngestConfig) × (wire_up join c ms ≡ some (is, live_config c ms))
      × (workers_accepted is ≡ true)
      × (length is ≡ length ms)
wire_up_made join line args c ms e f =
    let u = parse_vms_args-IsUsable join line args c e in
    all_parts join c ms u
      (parse_channel_map-accepts c.channel_map ms c.channel_start_delay_ms u.0.8.0 f)
