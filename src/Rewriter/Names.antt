-- ===== src/Rewriter/Names.antt =====
-- The channel that a request to the proxy names.
use rpi_server.Prelude.{
  ℕ, ◌+◌, ◌-◌, ◌≡◌, ◌⊎◌, inl, inr, refl, true, not, Option, none, some, [], ◌∷◌, if_elim, arith,
  drop,
}
use rpi_server.Prelude.Int.{ℤ, pos, negsuc, leb_ℤ, ltb_ℤ, ◌≤ℤ◌}
use rpi_server.Bytes.{Bytes, codes, find, is_digit}
use rpi_server.Parser.Text.{lower_copy}
use rpi_server.Rewriter.{channel_digit, channel_at, parse_channel_from_request_target}

abbrev pub IsChannel : ℤ → ℤ → Type 0
IsChannel max_channels n = (n ≡ negsuc 0) ⊎ ((pos 0 ≤ℤ n) × (ltb_ℤ n max_channels ≡ true))

channel_digit-IsChannel :
    (max_channels : ℤ) (s : Bytes) → IsChannel max_channels (channel_digit max_channels s)
unfolding channel_digit
channel_digit-IsChannel max_channels [] = inl refl
channel_digit-IsChannel max_channels (c ∷ rest) =
    if_elim (IsChannel max_channels) (not (is_digit c)) (λ h. inl refl)
      (λ _.
        if_elim (IsChannel max_channels) (leb_ℤ max_channels (pos (c - b'0'))) (λ h. inl refl)
          (λ below. inr (omega arith, ground arith)))

channel_at-IsChannel :
    (max_channels : ℤ) (target : Bytes) (o : Option ℕ)
    → IsChannel max_channels (channel_at max_channels target o)
unfolding channel_at
channel_at-IsChannel max_channels target none = inl refl
channel_at-IsChannel max_channels target (some i) =
    channel_digit-IsChannel max_channels (drop (i + 3) target)

-- The channel of a request to the proxy is -1, or it is not negative and below the number of
-- channels.
pub target-IsChannel :
    (target : Bytes) (max_channels : ℤ)
    → IsChannel max_channels (parse_channel_from_request_target target max_channels)
unfolding parse_channel_from_request_target
target-IsChannel target max_channels =
    channel_at-IsChannel max_channels target (find (codes "/ch") (lower_copy target))
