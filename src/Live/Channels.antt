-- ===== src/Live/Channels.antt =====
-- src/live/live_rtsp_server.cpp: the channels that a live server is made with, and the frames that
-- reach its clients.
use rpi_server.Prelude.{
  ℕ, ◌+◌, ◌-◌, ◌%◌, ◌^◌, Bool, true, false, not, ◌&&◌, ◌||◌, Option, none, some, List, [], ◌∷◌,
  ◌++◌, ltb, ◌==◌, if◌then◌else◌,
}
use rpi_server.Prelude.Int.{ℤ, pos, ltb_ℤ, leb_ℤ, eqb_ℤ}
use rpi_server.Bytes.{Bytes, codes}
use rpi_server.Bytes.Number.{to_string_ℤ}
use rpi_server.Config.{is_empty}
use rpi_server.FrameQueue.{VideoCodec, h264, h265, OwnedLiveFrame, push}
use rpi_server.Live.{ParameterSets, update_parameter_sets, LiveClient}

pub record Channel : Type 0 where
  pub channel_id : ℤ
  pub codec : VideoCodec

pub record LiveRtspServerConfig : Type 0 where
  pub rtsp_port : ℤ
  pub rtsps_port : ℤ
  pub tls_cert_file : Bytes
  pub tls_key_file : Bytes
  pub channel_id : ℤ
  pub codec : VideoCodec
  pub channels : List Channel

unfoldable pub registered_channel : List Channel → ℤ → Option Channel
registered_channel [] id = none
registered_channel (c ∷ channels) id =
    if eqb_ℤ c.channel_id id then some c else registered_channel channels id

codec_of : Option Channel → Option VideoCodec
codec_of none = none
codec_of (some c) = some c.codec

-- The codec, where the channel is there.
unfoldable pub find_live_channel : LiveRtspServerConfig → ℤ → Option VideoCodec
unfolding registered_channel codec_of
find_live_channel config id = elim config.channels [
  | [] ↦ if eqb_ℤ config.channel_id id then some config.codec else none
  | c ∷ channels ↦ codec_of (registered_channel (c ∷ channels) id)
]

list_entry : Bytes → Channel → Bytes
unfolding to_string_ℤ
list_entry [] c = codes "/ch" ++ to_string_ℤ c.channel_id
list_entry (b ∷ result) c = b ∷ (result ++ (codes ",/ch" ++ to_string_ℤ c.channel_id))

unfoldable pub channel_list : Bytes → List Channel → Bytes
unfolding list_entry
channel_list result [] = result
channel_list result (c ∷ channels) = channel_list (list_entry result c) channels

-- The loop of the constructor: each id is from 1 to 4 and has not been seen.
unfoldable pub ids_accepted : List Channel → (ℤ → Bool) → Bool
ids_accepted [] seen = true
ids_accepted (c ∷ channels) seen =
    if ltb_ℤ c.channel_id (pos 1) || ltb_ℤ (pos 4) c.channel_id
    then false
    else if seen c.channel_id
    then false
    else ids_accepted channels (λ id. eqb_ℤ id c.channel_id || seen id)

unfoldable pub with_channels : LiveRtspServerConfig → List Channel → List Channel
with_channels config [] = record { channel_id = config.channel_id; codec = config.codec } ∷ []
with_channels config (c ∷ channels) = c ∷ channels

-- The constructor of `Impl`; `none` is an exception.
unfoldable pub new_server : LiveRtspServerConfig → Option LiveRtspServerConfig
unfolding with_channels ids_accepted is_empty
new_server config =
    let channels = with_channels config config.channels in
    if not (ids_accepted channels (λ id. false))
    then none
    else if leb_ℤ config.rtsp_port (pos 0) && leb_ℤ config.rtsps_port (pos 0)
    then none
    else if ltb_ℤ (pos 0) config.rtsps_port
        && (is_empty config.tls_cert_file || is_empty config.tls_key_file)
    then none
    else some (record config { channels = channels })

-- What `on_frame` changes: the parameter sets by channel, the clients, and the count of frames that
-- queues have dropped. A client whose session has ended is not among them.
pub record LiveServer : Type 0 where
  pub sets : ℕ → ParameterSets
  pub clients : List LiveClient
  pub queue_drops : ℕ

unfoldable pub same_codec : VideoCodec → VideoCodec → Bool
same_codec h264 h264 = true
same_codec h265 h265 = true
same_codec _ _ = false

unfoldable pub takes_frame : OwnedLiveFrame → LiveClient → Bool
takes_frame frame c = c.connected && (c.playing && eqb_ℤ c.channel_id (pos frame.channel_id))

-- A client's turn in the second loop; the two reads of the drop count stand around the push.
unfoldable pub push_client : OwnedLiveFrame → LiveClient → LiveClient
unfolding takes_frame
push_client frame c =
    if takes_frame frame c then record c { queue = (push c.queue (some frame)).0 } else c

unfoldable pub new_drops : LiveClient → LiveClient → ℕ
new_drops before after =
    if ltb before.queue.drops after.queue.drops then after.queue.drops - before.queue.drops else 0

unfoldable pub push_clients : OwnedLiveFrame → List LiveClient → ℕ → List LiveClient × ℕ
unfolding push_client new_drops
push_clients frame [] drops = ([], drops)
push_clients frame (c ∷ clients) drops =
    let rest = push_clients frame clients ((drops + new_drops c (push_client frame c)) % 2 ^ 64) in
    (push_client frame c ∷ rest.0, rest.1)

set_at : (ℕ → ParameterSets) → ℕ → ParameterSets → ℕ → ParameterSets
set_at sets id new i = if i == id then new else sets i

unfoldable pub taken_by : Option Channel → OwnedLiveFrame → Bool
unfolding same_codec
taken_by none frame = false
taken_by (some c) frame = same_codec c.codec frame.codec

unfoldable pub empty_frame : List ℕ → Bool
empty_frame [] = true
empty_frame (b ∷ bytes) = false

unfoldable pub on_frame : LiveRtspServerConfig → OwnedLiveFrame → LiveServer → LiveServer
unfolding taken_by empty_frame registered_channel set_at update_parameter_sets push_clients
on_frame config frame s =
    let pushed = push_clients frame s.clients s.queue_drops in
    if empty_frame frame.bytes
      || not (taken_by (registered_channel config.channels (pos frame.channel_id)) frame)
    then s
    else record {
      sets = set_at s.sets frame.channel_id (update_parameter_sets frame (s.sets frame.channel_id));
      clients = pushed.0;
      queue_drops = pushed.1;
    }
