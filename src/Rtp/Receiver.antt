-- ===== src/Rtp/Receiver.antt =====
-- A receiver of RTP payloads, as RFC 6184 (H.264, FU-A) and RFC 7798 (H.265, FU) describe it, and
-- how it hears the fragments of one NAL unit.
use Prim.Native.Nat.{bit_and, bit_or}
use rpi_server.Prelude.{
  ℕ, zero, suc, ◌+◌, ◌*◌, ◌/◌, ◌%◌, ◌≤◌, ◌<◌, ◌≡◌, ◌∙◌, Bool, true, false, List, [], ◌∷◌, ◌++◌,
  append_assoc, map, min, ◌==◌, if◌then◌else◌, length, take, drop, arith, length-drop,
  take-append-drop, take_all, drop_all, Bool-cases, inl, inr,
}
use rpi_server.Bytes.{Bytes}
use rpi_server.FrameQueue.{VideoCodec, h264, h265}
use rpi_server.Rtp.{fu_byte, RtpPacket}
use rpi_server.Rtp.Bits.{fu_byte_sum, and_1f, and_3f, fu_indicator, fu_header0}
use rpi_server.Rtp.Items.{Item, fu_items, fu_items-nil}

-- What the receiver makes of a payload: a whole NAL unit, or the unit read so far.
pub data Heard : Type 0 where
  whole part : Bytes → Heard

heard : ℕ → Bytes → Heard
heard fu unit = if fu / 64 % 2 == 1 then whole unit else part unit

-- The payload of one packet, behind the unit read so far.
unfoldable pub hear : VideoCodec → Bytes → Bytes → Heard
unfolding heard
hear h264 so_far (indicator ∷ fu ∷ body) =
    if indicator % 32 == 28
    then heard fu (if fu / 128 == 1 then (indicator / 32 * 32 + fu % 32) ∷ body else so_far ++ body)
    else whole (indicator ∷ fu ∷ body)
hear h265 so_far (header0 ∷ header1 ∷ fu ∷ body) =
    if header0 / 2 % 64 == 49
    then heard fu (
        if fu / 128 == 1
        then (header0 / 128 * 128 + fu % 64 * 2 + header0 % 2) ∷ header1 ∷ body
        else so_far ++ body)
    else whole (header0 ∷ header1 ∷ fu ∷ body)
hear k so_far payload = whole payload

-- The NAL units that the receiver gets from the payloads.
unfoldable pub depacketize : VideoCodec → Bytes → List Bytes → List Bytes
depacketize k so_far [] = []
depacketize k so_far (p ∷ ps) = elim (hear k so_far p) [
  | whole unit ↦ unit ∷ depacketize k [] ps
  | part unit ↦ depacketize k unit ps
]

abbrev pub payloads : List RtpPacket → List Bytes
payloads ps = map (λ (p : RtpPacket). drop 12 p.bytes) ps

abbrev pub data_of : List Item → List Bytes
data_of items = map (λ (i : Item). i.0) items

-- How the receiver hears a fragment with these bytes before and in the FU header, of a unit that
-- begins with `header`.
abbrev pub HearsFragments : VideoCodec → Bytes → ℕ → Bytes → Type 0
HearsFragments k prefix ty header =
    (first end : Bool) (so_far chunk : Bytes)
    → hear k so_far (prefix ++ (fu_byte ty first end ∷ chunk)) ≡ (
        if end
        then whole ((if first then header else so_far) ++ chunk)
        else part ((if first then header else so_far) ++ chunk))

pub h264-HearsFragments :
    (h : ℕ)
    → h < 256
    → HearsFragments h264 (bit_or (bit_and h 0xe0) 28 ∷ []) (bit_and h 0x1f) (h ∷ [])
unfolding hear
h264-HearsFragments h l true true so_far chunk =
    rw (fu_indicator h l, and_1f h l, fu_byte_sum true true (h % 32) (omega arith)) (ground arith)
h264-HearsFragments h l true false so_far chunk =
    rw (fu_indicator h l, and_1f h l, fu_byte_sum true false (h % 32) (omega arith)) (ground arith)
h264-HearsFragments h l false true so_far chunk =
    rw (fu_indicator h l, and_1f h l, fu_byte_sum false true (h % 32) (omega arith)) (ground arith)
h264-HearsFragments h l false false so_far chunk =
    rw (fu_indicator h l, and_1f h l, fu_byte_sum false false (h % 32) (omega arith)) (ground arith)

pub h265-HearsFragments :
    (h h1 : ℕ)
    → h < 256
    → HearsFragments h265
        (bit_or (bit_and h 0x81) (49 * 2) ∷ h1 ∷ [])
        (bit_and (h / 2) 0x3f)
        (h ∷ h1 ∷ [])
unfolding hear
h265-HearsFragments h h1 l true true so_far chunk =
    rw (fu_header0 h l, and_3f h l, fu_byte_sum true true (h / 2 % 64) (omega arith)) (ground arith)
h265-HearsFragments h h1 l true false so_far chunk =
    rw (fu_header0 h l, and_3f h l, fu_byte_sum true false (h / 2 % 64) (omega arith))
      (ground arith)
h265-HearsFragments h h1 l false true so_far chunk =
    rw (fu_header0 h l, and_3f h l, fu_byte_sum false true (h / 2 % 64) (omega arith))
      (ground arith)
h265-HearsFragments h h1 l false false so_far chunk =
    rw (fu_header0 h l, and_3f h l, fu_byte_sum false false (h / 2 % 64) (omega arith))
      (ground arith)

pub depacketize-whole :
    (k : VideoCodec) (so_far p unit : Bytes) (ps : List Bytes)
    → hear k so_far p ≡ whole unit
    → depacketize k so_far (p ∷ ps) ≡ unit ∷ depacketize k [] ps
unfolding depacketize
depacketize-whole k so_far p unit ps e = rw (e, depacketize)

depacketize-part :
    (k : VideoCodec) (so_far p unit : Bytes) (ps : List Bytes)
    → hear k so_far p ≡ part unit
    → depacketize k so_far (p ∷ ps) ≡ depacketize k unit ps
unfolding depacketize
depacketize-part k so_far p unit ps e = rw (e, depacketize)

module _ (k : VideoCodec) (prefix : Bytes) (ty : ℕ) (header : Bytes)
    (law : HearsFragments k prefix ty header) where
  -- The fragments of one unit are heard as the unit, whatever payloads follow.
  pub fu_items-heard :
      (fuel limit : ℕ) (last first : Bool) (rest so_far : Bytes) (more : List Bytes)
      → 0 < limit
      → 0 < length rest
      → length rest ≤ fuel
      → depacketize k so_far (data_of (fu_items fuel prefix ty limit last first rest) ++ more)
        ≡ ((if first then header else so_far) ++ rest) ∷ depacketize k [] more
  unfolding fu_items
  fu_items-heard zero limit last first rest so_far more l n f = absurd (omega arith)
  fu_items-heard (suc fuel) limit last first [] so_far more l n f = absurd (omega arith)
  fu_items-heard (suc fuel) limit last first (b ∷ rest) so_far more l n f = elim (Bool-cases end) [
    | inl done ↦
        depacketize-whole k so_far payload (read ++ (b ∷ rest)) _ (
          law first end so_far (take chunk (b ∷ rest))
          ∙ rw (done, take_all chunk (b ∷ rest) (ground arith)))
        ∙ rw
            (drop_all chunk (b ∷ rest) (ground arith), fu_items-nil fuel prefix ty limit last false)
    | inr more_left ↦
        depacketize-part k so_far payload (read ++ take chunk (b ∷ rest)) _
          (law first end so_far (take chunk (b ∷ rest)) ∙ rw more_left)
        ∙ fu_items-heard fuel limit last false (drop chunk (b ∷ rest))
            (read ++ take chunk (b ∷ rest)) more l (ground (arith, length-drop chunk (b ∷ rest)))
            (ground (arith, length-drop chunk (b ∷ rest)))
        ∙ rw (append_assoc read, take-append-drop chunk (b ∷ rest))
  ]
    where
      chunk : ℕ
      chunk = min limit (length (b ∷ rest))

      end : Bool
      end = chunk == length (b ∷ rest)

      payload : Bytes
      payload = prefix ++ (fu_byte ty first end ∷ take chunk (b ∷ rest))

      read : Bytes
      read = if first then header else so_far
