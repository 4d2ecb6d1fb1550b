-- ===== src/Rtp/Reassembly.antt =====
-- The receiver gets back the NAL units from the packets of `packetize_access_unit`.
use mathlib.Core.List.{map-append}
use rpi_server.Prelude.{
  ℕ, ◌+◌, ◌-◌, ◌/◌, ◌%◌, ◌^◌, ◌<◌, ◌≡◌, ◌≢◌, refl, ap, ◌∙◌, Bool, true, some, List, [], ◌∷◌, ◌++◌,
  leb, if_elim, length, arith, All,
}
use rpi_server.Bytes.{Bytes}
use rpi_server.FrameQueue.{VideoCodec, h264, h265}
use rpi_server.Rtp.{make_rtp_packet, RtpContext, Sent, is_last, packetize_access_unit}
use rpi_server.Rtp.Items.{Item, h264_items, h265_items, fragment_items, nal_items, unit_items}
use rpi_server.Rtp.Packets.{number, packetize-number, packetize_returns}
use rpi_server.Rtp.Receiver.{
  whole, hear, depacketize, payloads, data_of, depacketize-whole, h264-HearsFragments,
  h265-HearsFragments, fu_items-heard,
}

-- A NAL unit whose first byte is a byte, and whose type is not that of a fragment.
abbrev pub IsNal : VideoCodec → Bytes → Type 0
IsNal k [] = Unit
IsNal h264 (h ∷ rest) = (h < 256) × (h % 32 ≢ 28)
IsNal h265 (h ∷ rest) = (h < 256) × (h / 2 % 64 ≢ 49)

abbrev pub nonempty : List Bytes → List Bytes
nonempty [] = []
nonempty ([] ∷ nals) = nonempty nals
nonempty ((h ∷ rest) ∷ nals) = (h ∷ rest) ∷ nonempty nals

hear_single :
    (k : VideoCodec) (so_far : Bytes) (h : ℕ) (rest : Bytes)
    → IsNal k (h ∷ rest)
    → hear k so_far (h ∷ rest) ≡ whole (h ∷ rest)
unfolding hear
hear_single h264 so_far h [] n = refl
hear_single h264 so_far h (f ∷ body) n = ground (arith, n.1)
hear_single h265 so_far h [] n = refl
hear_single h265 so_far h (h1 ∷ []) n = refl
hear_single h265 so_far h (h1 ∷ f ∷ body) n = ground (arith, n.1)

fragments_heard :
    (k : VideoCodec) (mtu : ℕ) (last : Bool) (h : ℕ) (rest : Bytes) (more : List Bytes)
    → 15 < mtu
    → IsNal k (h ∷ rest)
    → mtu - 12 < length (h ∷ rest)
    → depacketize k [] (data_of (fragment_items k mtu last h rest) ++ more)
      ≡ (h ∷ rest) ∷ depacketize k [] more
unfolding fragment_items h264_items h265_items
fragments_heard h264 mtu last h rest more m n l =
    fu_items-heard h264 _ _ (h ∷ []) (h264-HearsFragments h n.0) (length rest) (mtu - 12 - 2) last
      true rest [] more (omega arith) (omega arith) (omega arith)
fragments_heard h265 mtu last h [] more m n l = absurd (omega arith)
fragments_heard h265 mtu last h (b ∷ []) more m n l = absurd (omega arith)
fragments_heard h265 mtu last h (h1 ∷ b ∷ rest) more m n l =
    fu_items-heard h265 _ _ (h ∷ h1 ∷ []) (h265-HearsFragments h h1 n.0) (length (b ∷ rest))
      (mtu - 12 - 3) last true (b ∷ rest) [] more (omega arith) (omega arith) (omega arith)

nal_heard :
    (k : VideoCodec) (mtu : ℕ) (last : Bool) (h : ℕ) (rest : Bytes) (more : List Bytes)
    → 15 < mtu
    → IsNal k (h ∷ rest)
    → depacketize k [] (data_of (nal_items k mtu last (h ∷ rest)) ++ more)
      ≡ (h ∷ rest) ∷ depacketize k [] more
unfolding nal_items
nal_heard k mtu last h rest more m n =
    if_elim
      (λ (items : List Item).
        depacketize k [] (data_of items ++ more) ≡ (h ∷ rest) ∷ depacketize k [] more)
      (leb (length (h ∷ rest)) (mtu - 12))
      (λ _. depacketize-whole k [] (h ∷ rest) (h ∷ rest) more (hear_single k [] h rest n))
      (λ big. fragments_heard k mtu last h rest more m n (ground arith))

nal_items-nil : (k : VideoCodec) (mtu : ℕ) (last : Bool) → nal_items k mtu last [] ≡ []
unfolding nal_items
nal_items-nil k mtu last = refl

unit_heard :
    (k : VideoCodec) (mtu : ℕ) (nals : List Bytes)
    → 15 < mtu
    → All (IsNal k) nals
    → depacketize k [] (data_of (unit_items k mtu nals)) ≡ nonempty nals
unfolding unit_items depacketize
unit_heard k mtu [] m a = refl
unit_heard k mtu ([] ∷ nals) m a =
    ap (λ items. depacketize k [] (data_of (items ++ unit_items k mtu nals)))
      (nal_items-nil k mtu (is_last nals))
    ∙ unit_heard k mtu nals m a.1
unit_heard k mtu ((h ∷ rest) ∷ nals) m a =
    ap (depacketize k []) (map-append _ (nal_items k mtu (is_last nals) (h ∷ rest)) _)
    ∙ nal_heard k mtu (is_last nals) h rest _ m a.0
    ∙ ap (λ x. (h ∷ rest) ∷ x) (unit_heard k mtu nals m a.1)

payloads-number :
    (c : RtpContext) (n : ℕ) (items : List Item) → payloads (number c n items) ≡ data_of items
unfolding make_rtp_packet
payloads-number c n [] = refl
payloads-number c n ((p, m) ∷ items) = ap (◌∷◌ p) (payloads-number c ((n + 1) % 2 ^ 16) items)

returned-reassembles :
    (c : RtpContext) (nals : List Bytes) (n : ℕ) (r : Sent)
    → All (IsNal c.codec) nals
    → packetize_access_unit c nals n ≡ some r
    → depacketize c.codec [] (payloads r.packets) ≡ nonempty nals
returned-reassembles c nals n r a e =
    let (big, packets, _) = packetize-number c nals n r e in
    ap (λ ps. depacketize c.codec [] (payloads ps)) packets
    ∙ ap (depacketize c.codec []) (payloads-number c n (unit_items c.codec c.mtu nals))
    ∙ unit_heard c.codec c.mtu nals big a

-- For an MTU over 15 packets are returned, and a receiver that is given their payloads in order
-- gets the NAL units of the access unit that are not empty, unchanged and in order, split into
-- fragments or not: for either codec, and for NAL units of no fragment type.
pub packetize-reassembles :
    (c : RtpContext) (nals : List Bytes) (n : ℕ)
    → 15 < c.mtu
    → All (IsNal c.codec) nals
    → (r : Sent) × (packetize_access_unit c nals n ≡ some r)
      × (depacketize c.codec [] (payloads r.packets) ≡ nonempty nals)
packetize-reassembles c nals n m a =
    let (r, e) = packetize_returns c nals n m in (r, e, returned-reassembles c nals n r a e)
