-- ===== src/Rtp/Tests.antt =====
-- The theorems on packets and access units at concrete units.
use rpi_server.Prelude.{
  true, false, ℕ, zero, suc, ◌+◌, ◌%◌, ◌^◌, ◌<◌, ◌≡◌, ◌⊎◌, refl, none, some, List, [], ◌∷◌, ◌++◌,
  length, arith,
}
use rpi_server.Bytes.{Bytes}
use rpi_server.FrameQueue.{h264}
use rpi_server.Rtp.{RtpContext, Sent, packetize_access_unit, interleaved, append_u32}
use rpi_server.Rtp.Packets.{Numbered, packetize-Numbered}
use rpi_server.Rtp.Markers.{LastMarked, packetize-LastMarked}
use rpi_server.Rtp.Receiver.{depacketize, payloads}
use rpi_server.Rtp.Reassembly.{packetize-reassembles}
use rpi_server.Rtp.Wire.{Carries, interleaved-Carries}
use rpi_server.Rtp.Split.{start_code_size, first_start, split_access_unit}
use rpi_server.Rtp.Split.AnnexB.{Coded, annexb, split-annexb}
use rpi_server.Rtp.Split.Prefixed.{NoStart, prefixed, split-prefixed, split-length_as_start}

-- A small MTU, so that a unit of ten bytes is split.
abbrev context : RtpContext
context = record { codec = h264; timestamp = 90000; ssrc = 77; mtu = 18 }

abbrev short_nal : Bytes
short_nal = 0x67 ∷ 1 ∷ 2 ∷ []

abbrev long_nal : Bytes
long_nal = 0x65 ∷ 1 ∷ 2 ∷ 3 ∷ 4 ∷ 5 ∷ 6 ∷ 7 ∷ 8 ∷ 9 ∷ []

abbrev units : List Bytes
units = short_nal ∷ long_nal ∷ []

packetize-Numbered_example :
    (r : Sent) × (packetize_access_unit context units 65535 ≡ some r)
    × Numbered context 65535 r.packets
    × (r.sequence ≡ (65535 + length r.packets) % 2 ^ 16)
packetize-Numbered_example =
    packetize-Numbered context units 65535 (omega arith) (omega arith) (omega arith) (omega arith)

packetize-LastMarked_example :
    (r : Sent) × (packetize_access_unit context units 65535 ≡ some r) × LastMarked r.packets
packetize-LastMarked_example =
    packetize-LastMarked context (short_nal ∷ []) 0x65 (1 ∷ 2 ∷ 3 ∷ 4 ∷ 5 ∷ 6 ∷ 7 ∷ 8 ∷ 9 ∷ [])
      65535 (omega arith)

packetize-reassembles_example :
    (r : Sent) × (packetize_access_unit context units 65535 ≡ some r)
    × (depacketize h264 [] (payloads r.packets) ≡ units)
packetize-reassembles_example =
    packetize-reassembles context units 65535 (omega arith)
      ((omega arith, λ e. absurd (omega arith)), ((omega arith, λ e. absurd (omega arith)), _))

interleaved-Carries_example :
    ((65535 < 3) × (interleaved 2 short_nal ≡ none))
    ⊎ ((w : Bytes) × (interleaved 2 short_nal ≡ some w) × Carries 2 short_nal w)
interleaved-Carries_example = interleaved-Carries 2 short_nal

-- One start code of each size.
abbrev coded_units : List Coded
coded_units = (true, short_nal) ∷ (false, long_nal) ∷ []

prefixed_no_start : first_start (prefixed units ++ (9 ∷ [])) ≡ none
unfolding first_start start_code_size append_u32
prefixed_no_start = refl

split-annexb_example : split_access_unit (annexb coded_units) ≡ units
split-annexb_example = split-annexb coded_units (
  omega arith,
  (
    (refl, (refl, (refl, tt))),
    (
      (λ e. absurd (omega arith)),
      (
        omega arith,
        (
          (refl, (refl, (refl, (refl, (refl, (refl, (refl, (refl, (refl, (refl, tt)))))))))),
          (tt, tt),
        ),
      ),
    ),
  ),
)

split-prefixed_example :
    split_access_unit (prefixed units ++ (9 ∷ [])) ≡ units ++ ((prefixed units ++ (9 ∷ [])) ∷ [])
split-prefixed_example =
    split-prefixed short_nal (long_nal ∷ []) (9 ∷ [])
      ((omega arith, omega arith), ((omega arith, omega arith), _)) (omega arith) prefixed_no_start

-- A NAL unit of `n` bytes.
abbrev filled : ℕ → Bytes
filled zero = []
filled (suc n) = 5 ∷ filled n

five_first : (s : Bytes) → start_code_size (5 ∷ s) ≡ 0
unfolding start_code_size
five_first s = ground arith

filled-NoStart : (n : ℕ) → NoStart (filled n)
unfolding start_code_size
filled-NoStart zero = _
filled-NoStart (suc n) = (five_first (filled n), filled-NoStart n)

length-filled : (n : ℕ) → length (filled n) ≡ n
length-filled zero = refl
length-filled (suc n) = omega (arith, length-filled n)

long_NoStart : NoStart (length (filled 257) % 256 ∷ filled 257)
unfolding start_code_size
long_NoStart = (refl, filled-NoStart 257)

split-length_as_start_example :
    split_access_unit (prefixed (filled 257 ∷ [])) ≡ (1 ∷ filled 257) ∷ []
split-length_as_start_example =
    split-length_as_start (filled 257) (omega (arith, length-filled 257))
      (omega (arith, length-filled 257)) long_NoStart
