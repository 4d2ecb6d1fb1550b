-- ===== src/Parser/Extract/Frames.antt =====
-- Whole frames and messages at the front of the buffer, and messages that keep the loop going.
use rpi_server.Prelude.{
  ℕ, zero, suc, ◌+◌, ◌*◌, ◌≤◌, ◌<◌, ◌≡◌, ◌≢◌, refl, sym, ap, subst, ◌∙◌, true, false, some, List,
  [], ◌∷◌, ◌++◌, append_assoc, ltb, ltb→lt, ◌==◌, if_elim, length, take, arith, length-append,
  take_left, drop_left,
}
use rpi_server.Prelude.Int.{pos}
use rpi_server.Bytes.{Bytes, blank_line, find, equal}
use rpi_server.Bytes.Find.{find-append}
use rpi_server.Parser.Headers.{content_length_from_header}
use rpi_server.Parser.Extract.{
  ParserLimits, starts_with_at, any_starts, prefixes, is_rtsp_message_start_at, Extracted, got,
  pending, Round, done, take_message, interleaved_round, body_round, header_round, round,
  extract_one_rtsp_message,
}
use rpi_server.Parser.Extract.Sound.{Ends, extract-Ends}

extract-done :
    (fuel : ℕ) (limits : ParserLimits) (b : Bytes) (x : Extracted)
    → round limits b ≡ done x
    → extract_one_rtsp_message (suc fuel) limits b ≡ x
extract-done fuel limits b x e = sym (
    subst (λ y. Ends fuel limits y (extract_one_rtsp_message (suc fuel) limits b)) e
      (extract-Ends fuel limits b))

take_message_whole :
    (m rest : Bytes) (total : ℕ)
    → total ≡ length m
    → take_message total (m ++ rest) ≡ done (got m rest)
unfolding take_message
take_message_whole m rest total e =
    rw (e, length-append m rest, take_left m rest, drop_left m rest)
      (if_elim (λ (x : Round). x ≡ done (got m rest)) (ltb (length m + length rest) (length m))
        (λ h. absurd (ground arith)) (λ _. refl))

-- A whole interleaved frame at the front of the buffer is handed out, header and payload, and the
-- bytes behind it stay: whatever they are, and whatever the limits.
pub extract-frame :
    (fuel : ℕ) (limits : ParserLimits) (channel hi lo : ℕ) (payload rest : Bytes)
    → hi * 256 + lo ≡ length payload
    → extract_one_rtsp_message (suc fuel) limits (b'$' ∷ channel ∷ hi ∷ lo ∷ (payload ++ rest))
      ≡ got (b'$' ∷ channel ∷ hi ∷ lo ∷ payload) rest
unfolding round interleaved_round
extract-frame fuel limits channel hi lo payload rest e = extract-done fuel limits _ _ (
    if_elim P (ltb (length frame) 4) (λ h. absurd (ground arith))
      (λ _.
        take_message_whole (b'$' ∷ channel ∷ hi ∷ lo ∷ payload) rest (4 + (hi * 256 + lo))
          (omega arith)))
  where
    frame : Bytes
    frame = b'$' ∷ channel ∷ hi ∷ lo ∷ (payload ++ rest)

    P : Round → Type 0
    P x = x ≡ done (got (b'$' ∷ channel ∷ hi ∷ lo ∷ payload) rest)

take-append_le : (n : ℕ) (s t : Bytes) → n ≤ length s → take n (s ++ t) ≡ take n s
take-append_le zero s t h = refl
take-append_le (suc n) [] t h = absurd (omega arith)
take-append_le (suc n) (c ∷ s) t h = ap (◌∷◌ c) (take-append_le n s t (omega arith))

starts_with_at-append :
    (s t p : Bytes) → starts_with_at s 0 p ≡ true → starts_with_at (s ++ t) 0 p ≡ true
unfolding starts_with_at
starts_with_at-append s t p h = ground (arith, take-append_le (length p) s t, length-append s t)

any_starts-append :
    (s t : Bytes) (ps : List Bytes) → any_starts s 0 ps ≡ true → any_starts (s ++ t) 0 ps ≡ true
unfolding any_starts
any_starts-append s t [] h = h
any_starts-append s t (p ∷ ps) h =
    ground (arith, starts_with_at-append s t p, any_starts-append s t ps)

pub is_start-append :
    (s t : Bytes) → is_rtsp_message_start_at s 0 ≡ true → is_rtsp_message_start_at (s ++ t) 0 ≡ true
unfolding is_rtsp_message_start_at
is_start-append s t h = any_starts-append s t prefixes h

start_head : (c x : ℕ) (s p : Bytes) → starts_with_at (c ∷ s) 0 (x ∷ p) ≡ true → c ≡ x
unfolding starts_with_at equal
start_head c x s p h = ground arith

abbrev NoDollar : List Bytes → Type 0
NoDollar [] = Unit
NoDollar ([] ∷ ps) = ⊥
NoDollar ((x ∷ p) ∷ ps) = (x ≢ b'$') × NoDollar ps

any_starts-ne-dollar :
    (c : ℕ) (s : Bytes) (ps : List Bytes) → NoDollar ps → any_starts (c ∷ s) 0 ps ≡ true → c ≢ b'$'
unfolding any_starts
any_starts-ne-dollar c s [] n h = cc
any_starts-ne-dollar c s ([] ∷ ps) n h = absurd n
any_starts-ne-dollar c s ((x ∷ p) ∷ ps) n h =
    ground (arith, start_head c x s p, any_starts-ne-dollar c s ps n.1, n.0)

ne_test : (c : ℕ) → c ≢ b'$' → (c == b'$') ≡ false
ne_test c h = ground arith

start-ne-dollar :
    (c : ℕ) (s : Bytes) → is_rtsp_message_start_at (c ∷ s) 0 ≡ true → (c == b'$') ≡ false
unfolding is_rtsp_message_start_at
start-ne-dollar c s h = ne_test c (any_starts-ne-dollar c s prefixes (omega arith) h)

start-nil : is_rtsp_message_start_at [] 0 ≡ false
unfolding is_rtsp_message_start_at any_starts starts_with_at
start-nil = refl

-- A round at a message start is decided by where the header ends.
pub round_start :
    (limits : ParserLimits) (b : Bytes)
    → is_rtsp_message_start_at b 0 ≡ true
    → round limits b ≡ header_round limits (find blank_line b) b
unfolding round
round_start limits [] h = cc (start-nil)
round_start limits (c ∷ s) h = rw (start-ne-dollar c s h, h) refl

-- A header with its blank line, as long as its limit allows.
pub record IsHeader (limits : ParserLimits) (h : Bytes) : Type 0 where
  pub end : ℕ
  pub starts : is_rtsp_message_start_at h 0 ≡ true
  pub ends : find blank_line h ≡ some end
  pub whole : end + 4 ≡ length h
  pub short : length h ≤ limits.max_header_bytes

-- The round looks at the header alone, whatever stands behind it.
pub round-IsHeader :
    (limits : ParserLimits) (h t : Bytes)
    → IsHeader limits h
    → round limits (h ++ t) ≡ body_round limits (length h) (content_length_from_header h) (h ++ t)
unfolding header_round
round-IsHeader limits h t v =
    round_start limits (h ++ t) (is_start-append h t v.starts)
    ∙ rw (find-append blank_line h t v.end v.ends, header_round, v.whole, take_left h t)
        (if_elim
          (λ (x : Round). x ≡ body_round limits (length h) (content_length_from_header h) (h ++ t))
          (ltb limits.max_header_bytes (length h))
          (λ long. absurd (omega (arith, v.short, ltb→lt _ _ long))) (λ _. refl))

-- A whole message at the front of the buffer is handed out, header and body, and the bytes
-- behind it stay: the header is complete and within its limit, its Content-Length is the size of
-- the body, and the body is within its limit.
pub extract-message :
    (fuel : ℕ) (limits : ParserLimits) (h body rest : Bytes)
    → IsHeader limits h
    → content_length_from_header h ≡ pos (length body)
    → length body ≤ limits.max_body_bytes
    → extract_one_rtsp_message (suc fuel) limits (h ++ (body ++ rest)) ≡ got (h ++ body) rest
unfolding body_round
extract-message fuel limits h body rest v e l =
    extract-done fuel limits (h ++ (body ++ rest)) (got (h ++ body) rest) (
      round-IsHeader limits h (body ++ rest) v
      ∙ rw (e, body_round)
          (if_elim (λ (x : Round). x ≡ done (got (h ++ body) rest))
            (ltb limits.max_body_bytes (length body))
            (λ long. absurd (omega (arith, l, ltb→lt _ _ long)))
            (λ _. rw (← append_assoc h body rest) (
              take_message_whole (h ++ body) rest (length h + length body)
                (sym (length-append h body))))))

-- A message whose body has not arrived in full stays in the buffer as it is, and nothing is handed
-- out.
pub extract_partial :
    (fuel : ℕ) (limits : ParserLimits) (h part : Bytes) (n : ℕ)
    → IsHeader limits h
    → content_length_from_header h ≡ pos n
    → n ≤ limits.max_body_bytes
    → length part < n
    → extract_one_rtsp_message (suc fuel) limits (h ++ part) ≡ pending (h ++ part)
unfolding body_round take_message
extract_partial fuel limits h part n v e l s =
    extract-done fuel limits (h ++ part) (pending (h ++ part)) (
      round-IsHeader limits h part v
      ∙ rw (e, body_round)
          (if_elim P (ltb limits.max_body_bytes n)
            (λ long. absurd (omega (arith, l, ltb→lt _ _ long)))
            (λ _.
              if_elim P (ltb (length (h ++ part)) (length h + n)) (λ _. refl)
                (λ enough. absurd (ground (arith, length-append h part))))))
  where
    P : Round → Type 0
    P x = x ≡ done (pending (h ++ part))
