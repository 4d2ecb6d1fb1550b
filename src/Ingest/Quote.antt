-- ===== src/Ingest/Quote.antt =====
-- src/media/channel_ingest.cpp: `quote_for_gst_parse` and a reader of quoted text.
use rpi_server.Prelude.{
  ℕ, ◌≡◌, refl, Bool, Option, none, some, [], ◌∷◌, ◌++◌, ◌==◌, if◌then◌else◌, if_elim, arith,
}
use rpi_server.Bytes.{Bytes}
use rpi_server.Ingest.{is_escaped, quote_bytes, quote_for_gst_parse}
use mathlib.Core.Option

abbrev read_one : ℕ → Bytes × Bytes → Bytes × Bytes
read_one c (text, rest) = (c ∷ text, rest)

-- What GStreamer's parser documents of a quoted value: up to the closing quote, a backslash stands
-- for the byte behind it. What follows the quote comes back too.
unfoldable pub read_quoted : Bytes → Option (Bytes × Bytes)
read_quoted [] = none
read_quoted (c ∷ []) = if c == 34 then some ([], []) else none
read_quoted (c ∷ d ∷ text) =
    let plain = read_quoted (d ∷ text) in
    let escaped = read_quoted text in
    if c == 34
    then some ([], d ∷ text)
    else if c == 92
    then Option.map (read_one d) escaped
    else Option.map (read_one c) plain

unfoldable pub read_value : Bytes → Option (Bytes × Bytes)
unfolding read_quoted
read_value [] = none
read_value (c ∷ text) = if c == 34 then read_quoted text else none

read_plain :
    (c : ℕ) (text value rest : Bytes)
    → is_escaped c ≡ Bool.false
    → read_quoted text ≡ some (value, rest)
    → read_quoted (c ∷ text) ≡ some (c ∷ value, rest)
unfolding read_quoted
read_plain c [] value rest h e = cc
read_plain c (d ∷ text) value rest h e = ground arith

read_quoted-quote_bytes :
    (value rest : Bytes) → read_quoted (quote_bytes value ++ rest) ≡ some (value, rest)
unfolding read_quoted quote_bytes
read_quoted-quote_bytes [] [] = refl
read_quoted-quote_bytes [] (d ∷ rest) = refl
read_quoted-quote_bytes (c ∷ value) rest =
    if_elim (λ (t : Bytes). read_quoted (t ++ rest) ≡ some (c ∷ value, rest)) (is_escaped c)
      (λ h. ground (arith, read_quoted-quote_bytes value rest))
      (λ h.
        read_plain c (quote_bytes value ++ rest) value rest h (read_quoted-quote_bytes value rest))

-- A quoted text that stands in front of any other text reads back exactly, and the other text
-- follows it: no byte of it can end the quotation early.
pub read_value-quote_for_gst_parse :
    (value rest : Bytes) → read_value (quote_for_gst_parse value ++ rest) ≡ some (value, rest)
unfolding read_value quote_for_gst_parse
read_value-quote_for_gst_parse value rest = read_quoted-quote_bytes value rest
