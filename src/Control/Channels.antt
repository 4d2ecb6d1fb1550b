-- ===== src/Control/Channels.antt =====
-- The well-formedness of the state of a control connection: the ranges of its channels and the
-- session id, over any sequence of requests.
use rpi_server.Prelude.{
  ℕ, zero, suc, ◌+◌, ◌/◌, ◌≡◌, ◌≢◌, ◌⊎◌, inl, inr, refl, Bool, true, false, not, ◌||◌, ◌&&◌, Option,
  none, some, [], if_elim, arith, drop, subst, sym, length, length-append, ltb, ◌==◌,
}
use rpi_server.Prelude.Int.{ℤ, pos, negsuc, ltb_ℤ, eqb_ℤ, leb_ℤ, ◌≤ℤ◌}
use rpi_server.Bytes.{Bytes, codes, find, take_while, skip_while, is_digit, is_prefix}
use rpi_server.Parser.Text.{lower_copy}
use rpi_server.Parser.Headers.{extract_request_target}
use rpi_server.Bytes.Number.{stoi}
use rpi_server.FrameQueue.{VideoCodec}
use rpi_server.Control.Target.{
  parse_public_channel_id, ends_segment, path_of, without_query, channel_of_path, public_channel,
}
use rpi_server.Control.Reply.{random_session_id, hex_padded}
use rpi_server.Control.{
  initial, RtspControlState, checked_channels, with_rtcp, with_separator, with_rtp,
  interleaved_value, over_tcp, parse_interleaved_channels, extract_int, read_char,
  process_rtsp_request, valid_session_header,
}
use rpi_server.Control.Phases.{
  Move, stay, refuse, set_up, play, tear_down, IsRegistered, target_channel, process-Move,
}

-- The pair of interleaved channels that a state may hold: bytes, and not the same one.
abbrev IsPair : ℤ → ℤ → Type 0
IsPair rtp rtcp =
    (pos 0 ≤ℤ rtp)
    × (rtp ≤ℤ pos 255)
    × (pos 0 ≤ℤ rtcp)
    × (rtcp ≤ℤ pos 255)
    × (eqb_ℤ rtp rtcp ≡ false)

OnPair : Option (ℤ × ℤ) → Type 0
OnPair none = Unit
OnPair (some (rtp, rtcp)) = IsPair rtp rtcp

checked_channels-IsPair : (rtp rtcp : ℤ) (c : ℕ) → OnPair (checked_channels rtp c rtcp)
unfolding checked_channels OnPair
checked_channels-IsPair rtp rtcp c =
    if_elim OnPair
      (not (c == b'-')
        || (ltb_ℤ rtp (pos 0)
            || (ltb_ℤ rtcp (pos 0)
                || (ltb_ℤ (pos 255) rtp || (ltb_ℤ (pos 255) rtcp || eqb_ℤ rtp rtcp)))))
      (λ h. _) (λ h. (ground arith, ground arith, ground arith, ground arith, ground arith))

public_channel-range :
    (o : Option (ℤ × ℕ))
    → (public_channel o ≡ negsuc 0) ⊎ ((pos 1 ≤ℤ public_channel o) × (public_channel o ≤ℤ pos 4))
unfolding public_channel
public_channel-range none = inl refl
public_channel-range (some (c, n)) =
    if_elim (λ (r : ℤ). (r ≡ negsuc 0) ⊎ ((pos 1 ≤ℤ r) × (r ≤ℤ pos 4)))
      (leb_ℤ (pos 1) c && leb_ℤ c (pos 4)) (λ h. inr (ground arith, ground arith)) (λ h. inl refl)

with_rtcp-IsPair : (rtp : ℤ) (c : ℕ) (o : Option (ℤ × Bytes)) → OnPair (with_rtcp rtp c o)
unfolding with_rtcp OnPair
with_rtcp-IsPair rtp c none = _
with_rtcp-IsPair rtp c (some (rtcp, s)) = checked_channels-IsPair rtp rtcp c

with_separator-IsPair : (rtp : ℤ) (o : Option (ℕ × Bytes)) → OnPair (with_separator rtp o)
unfolding with_separator OnPair
with_separator-IsPair rtp none = _
with_separator-IsPair rtp (some (c, s)) = with_rtcp-IsPair rtp c (extract_int s)

with_rtp-IsPair : (o : Option (ℤ × Bytes)) → OnPair (with_rtp o)
unfolding with_rtp OnPair
with_rtp-IsPair none = _
with_rtp-IsPair (some (rtp, s)) = with_separator-IsPair rtp (read_char s)

interleaved_value-IsPair : (lower : Bytes) (i : Option ℕ) → OnPair (interleaved_value lower i)
unfolding interleaved_value OnPair
interleaved_value-IsPair lower none = (omega arith, omega arith, omega arith, omega arith, refl)
interleaved_value-IsPair lower (some i) = with_rtp-IsPair (extract_int (drop (i + 12) lower))

over_tcp-IsPair : (lower : Bytes) (i : Option ℕ) → OnPair (over_tcp lower i)
unfolding over_tcp OnPair
over_tcp-IsPair lower none = _
over_tcp-IsPair lower (some i) = interleaved_value-IsPair lower (find (codes "interleaved=") lower)

-- A pair that is read off a Transport header is in range.
channels-IsPair :
    (transport : Bytes) (rtp rtcp : ℤ)
    → parse_interleaved_channels transport ≡ some (rtp, rtcp)
    → IsPair rtp rtcp
unfolding parse_interleaved_channels OnPair
channels-IsPair transport rtp rtcp e =
    subst OnPair e
      (over_tcp-IsPair (lower_copy transport) (find (codes "rtp/avp/tcp") (lower_copy transport)))

channel_of_path-range :
    (path : Bytes)
    → (channel_of_path path ≡ negsuc 0)
      ⊎ ((pos 1 ≤ℤ channel_of_path path) × (channel_of_path path ≤ℤ pos 4))
unfolding channel_of_path
channel_of_path-range path =
    let P = λ (r : ℤ). (r ≡ negsuc 0) ⊎ ((pos 1 ≤ℤ r) × (r ≤ℤ pos 4)) in
    let digits = take_while is_digit (drop 3 path) in
    if_elim P (ltb (length path) 4 || not (is_prefix (codes "/ch") path)) (λ h. inl refl)
      (λ _.
        if_elim P (length digits == 0 || not (ends_segment (skip_while is_digit (drop 3 path))))
          (λ h. inl refl) (λ _. public_channel-range (stoi digits)))

-- The channel of a request target is -1 or one of 1 to 4.
target_range :
    (target : Bytes)
    → (parse_public_channel_id target ≡ negsuc 0)
      ⊎ ((pos 1 ≤ℤ parse_public_channel_id target) × (parse_public_channel_id target ≤ℤ pos 4))
unfolding parse_public_channel_id
target_range target = channel_of_path-range (without_query (path_of target))

length-hex_padded : (w n : ℕ) → length (hex_padded w n) ≡ w
unfolding hex_padded
length-hex_padded zero n = refl
length-hex_padded (suc w) n =
    rw (length-append (hex_padded w (n / 16)) _, length-hex_padded w (n / 16)) (omega arith)

length-random_session_id : (a b : ℕ) → length (random_session_id a b) ≡ 16
unfolding random_session_id
length-random_session_id a b = omega (
  arith,
  length-append (hex_padded 8 a) (hex_padded 8 b),
  length-hex_padded 8 a,
  length-hex_padded 8 b,
)

abbrev pub Established : RtspControlState → Type 0
Established s =
    (length s.session_id ≡ 16)
    × (pos 1 ≤ℤ s.channel_id)
    × (s.channel_id ≤ℤ pos 4)
    × IsPair s.rtp_channel s.rtcp_channel

-- Before SETUP there is no session id; after it the id has 16 bytes, and the channels are in range.
abbrev pub IsValid : RtspControlState → Type 0
IsValid s = ((s.phase ≡ initial) × (s.session_id ≡ [])) ⊎ ((s.phase ≢ initial) × Established s)

-- The state that a client starts with.
abbrev pub start : RtspControlState
start = record {
  phase = initial;
  session_id = [];
  channel_id = negsuc 0;
  rtp_channel = pos 0;
  rtcp_channel = pos 1;
}

true-false : true ≡ false → ⊥
true-false e = cc

range_of_registered :
    (request : Bytes) (registered : ℤ)
    → IsRegistered (target_channel request) registered
    → (pos 1 ≤ℤ target_channel request) × (target_channel request ≤ℤ pos 4)
range_of_registered request registered l = elim (target_range (extract_request_target request)) [
  | inl e ↦ absurd (true-false (subst (λ (c : ℤ). ltb_ℤ c (pos 0) ≡ false) e l.0))
  | inr h ↦ h
]

established :
    (header : Bytes) (s : RtspControlState)
    → valid_session_header header s.session_id ≡ true
    → IsValid s
    → Established s
unfolding valid_session_header
established header s h (inl (p, e)) =
    absurd (true-false (sym (subst (λ (id : Bytes). valid_session_header header id ≡ true) e h)))
established header s h (inr (p, e)) = e

Move-IsValid :
    (fresh request : Bytes) (registered : ℤ) (s t : RtspControlState) (b c : Bool)
    → length fresh ≡ 16
    → Move fresh request (target_channel request) registered s b c t
    → IsValid s
    → IsValid t
Move-IsValid fresh request registered s _ _ _ l (stay _) v = v
Move-IsValid fresh request registered s _ _ _ l (refuse _ e) v = v
Move-IsValid fresh request registered s _ _ _ l (set_up _ rtp rtcp live p m e) v = inr (
  (λ q. cc),
  (
    l,
    (range_of_registered request registered live).0,
    (range_of_registered request registered live).1,
    channels-IsPair _ rtp rtcp e,
  ),
)
Move-IsValid fresh request registered s _ _ _ l (play _ live p m c h) v =
    inr ((λ q. cc), established _ s h v)
Move-IsValid fresh request registered s _ _ _ l (tear_down _ live m h) v =
    inr ((λ q. cc), established _ s h v)

-- Every request keeps the state well formed: no session id before SETUP; after it an id of 16
-- bytes, a channel from 1 to 4, and two different interleaved channels from 0 to 255.
pub process-IsValid :
    (random1 random2 : ℕ) (request : Bytes) (registered : ℤ) (codec : VideoCodec) (fmtp : Bytes)
    (s : RtspControlState)
    → IsValid s
    → IsValid (process_rtsp_request random1 random2 request registered codec fmtp s).1
process-IsValid random1 random2 request registered codec fmtp s v =
    Move-IsValid _ request registered s _ _ _ (length-random_session_id random1 random2)
      (process-Move random1 random2 request registered codec fmtp s) v
