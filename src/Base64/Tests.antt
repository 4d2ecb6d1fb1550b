-- ===== src/Base64/Tests.antt =====
-- Runs of the encoder.
use rpi_server.Prelude.{◌≡◌, refl, [], ◌∷◌, arith}
use rpi_server.Bytes.{codes}
use rpi_server.Base64.{base64_encode}
use rpi_server.Base64.Decode.{decode, decode-base64_encode}

padded : base64_encode (codes "light w") ≡ codes "bGlnaHQgdw=="
unfolding base64_encode
padded = refl

decode-base64_encode_example :
    decode (base64_encode (0x67 ∷ 0x42 ∷ 0xc0 ∷ 0x1f ∷ [])) ≡ 0x67 ∷ 0x42 ∷ 0xc0 ∷ 0x1f ∷ []
decode-base64_encode_example =
    decode-base64_encode (0x67 ∷ 0x42 ∷ 0xc0 ∷ 0x1f ∷ [])
      (omega arith, (omega arith, (omega arith, (omega arith, _))))
