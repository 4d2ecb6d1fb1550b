-- ===== src/Base64.antt =====
-- src/live/live_rtsp_server.cpp: `base64_encode`, for the parameter sets in the SDP. Bytes are
-- numbers below 256, so that the three of a group do not overlap in `value`.
pub mod Decode
mod Tests
use rpi_server.Prelude.{
  ℕ, ◌+◌, ◌-◌, ◌*◌, ◌/◌, ◌%◌, ◌^◌, Bool, true, false, Option, none, some, List, [], ◌∷◌, ltb, leb,
  ◌==◌, if◌then◌else◌, get_or,
}
use rpi_server.Bytes.{Bytes, codes}

abbrev pub alphabet : Bytes
alphabet = codes "ABCDEFGHIJKLMNOPQRSTUVWXYZabcdefghijklmnopqrstuvwxyz0123456789+/"

-- `alphabet[n & 0x3f]`
unfoldable pub letter : ℕ → ℕ
letter n = get_or alphabet (n % 64) 0

-- The four letters of a group, the last two given.
unfoldable pub group : ℕ → ℕ → ℕ → Bytes → Bytes
unfolding letter
group value third fourth rest =
    letter (value / 2 ^ 18) ∷ letter (value / 2 ^ 12) ∷ third ∷ fourth ∷ rest

unfoldable pub base64_encode : Bytes → Bytes
unfolding group letter
base64_encode [] = []
base64_encode (a ∷ []) = group (a * 2 ^ 16) b'=' b'=' []
base64_encode (a ∷ b ∷ []) =
    let value = a * 2 ^ 16 + b * 2 ^ 8 in group value (letter (value / 2 ^ 6)) b'=' []
base64_encode (a ∷ b ∷ c ∷ rest) =
    let value = a * 2 ^ 16 + b * 2 ^ 8 + c in
    group value (letter (value / 2 ^ 6)) (letter value) (base64_encode rest)
