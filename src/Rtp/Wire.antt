-- ===== src/Rtp/Wire.antt =====
-- Interleaved frames: what the server writes, and what the message framing reads.
use rpi_server.Prelude.{
  ℕ, suc, ◌/◌, ◌%◌, ◌^◌, ◌≤◌, ◌<◌, ◌≡◌, refl, Option, none, some, ◌∷◌, ◌++◌, ltb, if_elim, length,
  drop, get_or, arith, ◌⊎◌, inl, inr,
}
use rpi_server.Bytes.{Bytes}
use rpi_server.Parser.Extract.{ParserLimits, got, extract_one_rtsp_message}
use rpi_server.Parser.Extract.Frames.{extract-frame}
use rpi_server.Rtp.{interleaved}

-- A frame on the wire that carries `packet` on `channel`, and that is read back whole at the front
-- of any buffer.
pub record Carries (channel : ℕ) (packet : Bytes) (w : Bytes) : Type 0 where
  pub on_channel : get_or w 1 0 ≡ channel % 256
  pub payload : drop 4 w ≡ packet
  pub read_back :
      (fuel : ℕ) (limits : ParserLimits) (rest : Bytes)
      → extract_one_rtsp_message (suc fuel) limits (w ++ rest) ≡ got w rest

frame_of : ℕ → Bytes → Bytes
frame_of channel packet =
    b'$' ∷ (channel % 256) ∷ (length packet / 2 ^ 8 % 256) ∷ (length packet % 256) ∷ packet

frame_of-Carries :
    (channel : ℕ) (packet : Bytes)
    → length packet ≤ 65535
    → Carries channel packet (frame_of channel packet)
unfolding frame_of
frame_of-Carries channel packet h = record {
  on_channel = refl;
  payload = refl;
  read_back = λ fuel limits rest.
      extract-frame fuel limits (channel % 256) (length packet / 2 ^ 8 % 256) (length packet % 256)
        packet rest (omega arith);
}

-- Exactly the packets of more than 65535 bytes are refused; any other is framed, and the message
-- framing reads the frame back with its channel and its packet, whatever stands behind it.
pub interleaved-Carries :
    (channel : ℕ) (packet : Bytes)
    → ((65535 < length packet) × (interleaved channel packet ≡ none))
      ⊎ ((w : Bytes) × (interleaved channel packet ≡ some w) × Carries channel packet w)
unfolding interleaved frame_of
interleaved-Carries channel packet =
    if_elim
      (λ (o : Option Bytes).
        ((65535 < length packet) × (o ≡ none))
        ⊎ ((w : Bytes) × (o ≡ some w) × Carries channel packet w))
      (ltb 65535 (length packet)) (λ long. inl (ground arith, refl))
      (λ short. inr (frame_of channel packet, refl, frame_of-Carries channel packet (ground arith)))
