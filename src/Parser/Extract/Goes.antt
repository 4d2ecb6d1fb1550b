-- ===== src/Parser/Extract/Goes.antt =====
-- How a round of the loop of `extract_one_rtsp_message` goes on.
use rpi_server.Prelude.{
  ℕ, drop, ◌+◌, ◌≤◌, ◌≡◌, ◌⊎◌, inl, inr, refl, true, false, not, Option, none, some, [], ◌∷◌, ltb,
  ◌==◌, if_elim, length, take, arith,
}
use rpi_server.Prelude.Int.{ℤ, pos, negsuc}
use rpi_server.Bytes.{Bytes, blank_line, find}
use rpi_server.Parser.Headers.{content_length_from_header}
use rpi_server.Parser.Extract.{
  ParserLimits, is_rtsp_message_start_at, find_next_message_start, resync_at, resync_message_buffer,
  got, pending, stuck, Round, done, again, take_message, interleaved_round, body_round,
  header_round, resynced, round,
}
use rpi_server.Parser.Extract.Rejects.{IsRefused, IsJunk, IsRejected}

-- A `continue` of the loop: the buffer is cut at the next start, or kept, or cleared.
abbrev pub Goes : ParserLimits → Bytes → Bytes → Type 0
Goes limits b b' =
    ((n : ℕ) × ((find_next_message_start b 1 ≡ some n)
        × ((b' ≡ drop n b) × (IsJunk b ⊎ IsRejected limits b))))
    ⊎ (IsRejected limits b
        × ((find_next_message_start b 1 ≡ none)
            × ((b' ≡ []) ⊎ ((length b ≤ limits.max_header_bytes) × (b' ≡ b)))))

abbrev pub RoundGoes : ParserLimits → Bytes → Round → Type 0
RoundGoes limits b (done (got m r)) = Unit
RoundGoes limits b (done (pending b')) = Unit
RoundGoes limits b (done stuck) = ⊥
RoundGoes limits b (again b') = Goes limits b b'

resync_at-Goes :
    (limits : ParserLimits) (b : Bytes) (o : Option ℕ)
    → find_next_message_start b 1 ≡ o
    → IsRejected limits b
    → Goes limits b (resync_at limits b o).0
unfolding resync_at
resync_at-Goes limits b (some n) e r = inl (n, (e, (refl, inr r)))
resync_at-Goes limits b none e r =
    if_elim (Goes limits b) (ltb limits.max_header_bytes (length b))
      (λ long. inr (r, (e, inl refl))) (λ short. inr (r, (e, inr (ground arith, refl))))

resync-Goes :
    (limits : ParserLimits) (b : Bytes)
    → IsRejected limits b
    → Goes limits b (resync_message_buffer limits b).0
unfolding resync_message_buffer
resync-Goes limits b r = resync_at-Goes limits b (find_next_message_start b 1) refl r

junk_at-Goes :
    (limits : ParserLimits) (b : Bytes) (o : Option ℕ)
    → find_next_message_start b 1 ≡ o
    → IsJunk b
    → RoundGoes limits b (resynced (resync_at limits b o))
unfolding resync_at resynced
junk_at-Goes limits b (some n) e j = inl (n, (e, (refl, inl j)))
junk_at-Goes limits b none e j = tt

junk-Goes :
    (limits : ParserLimits) (b : Bytes)
    → IsJunk b
    → RoundGoes limits b (resynced (resync_message_buffer limits b))
unfolding resync_message_buffer
junk-Goes limits b j = junk_at-Goes limits b (find_next_message_start b 1) refl j

take_message-Goes :
    (limits : ParserLimits) (total : ℕ) (b : Bytes) → RoundGoes limits b (take_message total b)
unfolding take_message
take_message-Goes limits total b =
    if_elim (RoundGoes limits b) (ltb (length b) total) (λ _. tt) (λ _. tt)

body_round-Goes :
    (limits : ParserLimits) (n : ℕ) (len : ℤ) (b : Bytes)
    → (IsRefused limits len → IsRejected limits b)
    → RoundGoes limits b (body_round limits n len b)
unfolding body_round
body_round-Goes limits n (negsuc k) b r = resync-Goes limits b (r tt)
body_round-Goes limits n (pos k) b r =
    if_elim (RoundGoes limits b) (ltb limits.max_body_bytes k)
      (λ large. resync-Goes limits b (r (ground arith))) (λ _. take_message-Goes limits (n + k) b)

header_round-Goes :
    (limits : ParserLimits) (o : Option ℕ) (c : ℕ) (rest : Bytes)
    → (c == b'$') ≡ false
    → is_rtsp_message_start_at (c ∷ rest) 0 ≡ true
    → find blank_line (c ∷ rest) ≡ o
    → RoundGoes limits (c ∷ rest) (header_round limits o (c ∷ rest))
unfolding header_round
header_round-Goes limits none c rest d s e =
    if_elim (RoundGoes limits (c ∷ rest)) (ltb limits.max_header_bytes (length (c ∷ rest)))
      (λ _. tt) (λ _. tt)
header_round-Goes limits (some end) c rest d s e =
    if_elim (RoundGoes limits (c ∷ rest)) (ltb limits.max_header_bytes (end + 4))
      (λ long. resync-Goes limits (c ∷ rest) (d, s, (end, (e, inl (ground arith)))))
      (λ _.
        body_round-Goes limits (end + 4) (content_length_from_header (take (end + 4) (c ∷ rest)))
          (c ∷ rest) (λ r. (d, s, (end, (e, inr r)))))

pub round-Goes : (limits : ParserLimits) (b : Bytes) → RoundGoes limits b (round limits b)
unfolding round
round-Goes limits [] = tt
round-Goes limits (c ∷ rest) =
    if_elim P (c == b'$')
      (λ _.
        unfold interleaved_round in
        if_elim P (ltb (length (c ∷ rest)) 4) (λ _. tt)
          (λ _. take_message-Goes limits _ (c ∷ rest)))
      (λ d.
        if_elim P (not (is_rtsp_message_start_at (c ∷ rest) 0))
          (λ s. junk-Goes limits (c ∷ rest) (d, ground arith))
          (λ s. header_round-Goes limits (find blank_line (c ∷ rest)) c rest d (ground arith) refl))
  where
    P : Round → Type 0
    P = RoundGoes limits (c ∷ rest)
