-- ===== src/Parser/Extract/Rejects.antt =====
-- The buffers at whose front `extract_one_rtsp_message` takes no message and waits for none.
use rpi_server.Prelude.{
  ℕ, ◌+◌, ◌≤◌, ◌<◌, ◌≡◌, ◌⊎◌, inl, inr, refl, true, false, none, some, [], ◌∷◌, ltb, ◌==◌, if_elim,
  length, take, drop, arith,
}
use rpi_server.Prelude.Int.{ℤ, pos, negsuc}
use rpi_server.Bytes.{Bytes, blank_line, find}
use rpi_server.Parser.Headers.{content_length_from_header}
use rpi_server.Parser.Extract.{
  ParserLimits, is_rtsp_message_start_at, find_next_message_start, resync_at, resync_message_buffer,
  Round, again, body_round, header_round, resynced, round,
}

-- The content length that `extract_one_rtsp_message` refuses.
abbrev pub IsRefused : ParserLimits → ℤ → Type 0
IsRefused limits (pos n) = limits.max_body_bytes < n
IsRefused limits (negsuc n) = Unit

-- The front is neither an interleaved frame nor the start of a message.
abbrev pub IsJunk : Bytes → Type 0
IsJunk [] = ⊥
IsJunk (c ∷ rest) = ((c == b'$') ≡ false) × (is_rtsp_message_start_at (c ∷ rest) 0 ≡ false)

-- A message with a complete header starts at the front, but the header is over its limit or its
-- Content-Length is refused.
abbrev pub IsRejected : ParserLimits → Bytes → Type 0
IsRejected limits [] = ⊥
IsRejected limits (c ∷ rest) =
    ((c == b'$') ≡ false)
    × (is_rtsp_message_start_at (c ∷ rest) 0 ≡ true)
    × ((end : ℕ) × ((find blank_line (c ∷ rest) ≡ some end)
          × ((limits.max_header_bytes < end + 4)
              ⊎ IsRefused limits (content_length_from_header (take (end + 4) (c ∷ rest))))))

pub resync_unchanged :
    (limits : ParserLimits) (b : Bytes)
    → find_next_message_start b 1 ≡ none
    → length b ≤ limits.max_header_bytes
    → (resync_message_buffer limits b).0 ≡ b
unfolding resync_message_buffer resync_at
resync_unchanged limits b e h =
    rw (e, resync_at)
      (if_elim (λ (x : Bytes). x ≡ b) (ltb limits.max_header_bytes (length b))
        (λ long. absurd (ground arith)) (λ _. refl))

pub resync_next :
    (limits : ParserLimits) (b : Bytes) (n : ℕ)
    → find_next_message_start b 1 ≡ some n
    → resync_message_buffer limits b ≡ (drop n b, true)
unfolding resync_message_buffer resync_at
resync_next limits b n e = rw (e, resync_at) refl

pub body_round_refused :
    (limits : ParserLimits) (n : ℕ) (len : ℤ) (b : Bytes)
    → IsRefused limits len
    → body_round limits n len b ≡ again (resync_message_buffer limits b).0
unfolding body_round
body_round_refused limits n (negsuc k) b r = refl
body_round_refused limits n (pos k) b r = ground arith

rejected_header :
    (limits : ParserLimits) (end : ℕ) (b : Bytes)
    → (limits.max_header_bytes < end + 4)
      ⊎ IsRefused limits (content_length_from_header (take (end + 4) b))
    → header_round limits (some end) b ≡ again (resync_message_buffer limits b).0
unfolding header_round
rejected_header limits end b why =
    if_elim (λ (x : Round). x ≡ again (resync_message_buffer limits b).0)
      (ltb limits.max_header_bytes (end + 4)) (λ long. refl)
      (λ short. elim why [
        | inl long ↦ absurd (ground arith)
        | inr r ↦ body_round_refused limits (end + 4) _ b r
      ])

pub round_rejected :
    (limits : ParserLimits) (b : Bytes)
    → IsRejected limits b
    → round limits b ≡ again (resync_message_buffer limits b).0
unfolding round
round_rejected limits [] r = absurd r
round_rejected limits (c ∷ rest) (d, s, (end, (e, why))) =
    rw (d, s, e) (rejected_header limits end (c ∷ rest) why)

pub round_junk :
    (limits : ParserLimits) (b : Bytes)
    → IsJunk b
    → round limits b ≡ resynced (resync_message_buffer limits b)
unfolding round
round_junk limits [] r = absurd r
round_junk limits (c ∷ rest) (d, s) = rw (d, s) refl
