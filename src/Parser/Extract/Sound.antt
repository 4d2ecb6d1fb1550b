-- ===== src/Parser/Extract/Sound.antt =====
-- What `extract_one_rtsp_message` hands out is a stretch of the buffer.
use rpi_server.Prelude.{
  ℕ, zero, suc, ◌+◌, ◌≤◌, ◌≡◌, ◌⊎◌, inl, inr, refl, sym, ap, subst, ◌∙◌, Bool, true, false, not,
  Option, none, some, [], ◌∷◌, ◌++◌, ltb, ◌==◌, if_elim, not-false, length, take, drop, get_or,
  arith, take-append-drop, length-take, drop_all, append_assoc,
}
use rpi_server.Prelude.Int.{ℤ, pos, negsuc}
use rpi_server.Bytes.{Bytes, blank_line, find}
use rpi_server.Parser.Headers.{content_length_from_header}
use rpi_server.Parser.Extract.{
  ParserLimits, is_rtsp_message_start_at, find_next_message_start, resync_at, resync_message_buffer,
  Extracted, got, pending, stuck, Round, done, again, take_message, interleaved_round, body_round,
  header_round, resynced, round, extract_one_rtsp_message,
}

abbrev pub Suffix : Bytes → Bytes → Type 0
Suffix b' b = (n : ℕ) × (b' ≡ drop n b)

-- A text that begins like an interleaved frame or an RTSP message.
abbrev pub IsStart : Bytes → Type 0
IsStart b = (get_or b 0 0 ≡ b'$') ⊎ (is_rtsp_message_start_at b 0 ≡ true)

abbrev RoundSound : Bytes → Round → Type 0
RoundSound b (done (got m r)) = (b ≡ m ++ r) × (4 ≤ length m) × IsStart b
RoundSound b (done (pending b')) = Suffix b' b
RoundSound b (done stuck) = ⊥
RoundSound b (again b') = Suffix b' b

resync_at-Suffix :
    (limits : ParserLimits) (b : Bytes) (o : Option ℕ) → Suffix (resync_at limits b o).0 b
unfolding resync_at
resync_at-Suffix limits b (some next) = (next, refl)
resync_at-Suffix limits b none =
    if_elim (λ (x : Bytes). Suffix x b) (ltb limits.max_header_bytes (length b))
      (λ _. (length b, sym (drop_all (length b) b (omega arith)))) (λ _. (0, refl))

pub resync-Suffix :
    (limits : ParserLimits) (b : Bytes) → Suffix (resync_message_buffer limits b).0 b
unfolding resync_message_buffer
resync-Suffix limits b = resync_at-Suffix limits b (find_next_message_start b 1)

take_message_sound :
    (total : ℕ) (b : Bytes) → 4 ≤ total → IsStart b → RoundSound b (take_message total b)
unfolding take_message
take_message_sound total b h s =
    if_elim (RoundSound b) (ltb (length b) total) (λ _. (0, refl))
      (λ enough. (sym (take-append-drop total b), ground (arith, length-take total b), s))

interleaved_round_sound : (b : Bytes) → IsStart b → RoundSound b (interleaved_round b)
unfolding interleaved_round
interleaved_round_sound b s =
    if_elim (RoundSound b) (ltb (length b) 4) (λ _. (0, refl))
      (λ _. take_message_sound _ b (omega arith) s)

body_round_sound :
    (limits : ParserLimits) (n : ℕ) (body_len : ℤ) (b : Bytes)
    → 4 ≤ n
    → IsStart b
    → RoundSound b (body_round limits n body_len b)
unfolding body_round
body_round_sound limits n (negsuc k) b h s = resync-Suffix limits b
body_round_sound limits n (pos k) b h s =
    if_elim (RoundSound b) (ltb limits.max_body_bytes k) (λ _. resync-Suffix limits b)
      (λ _. take_message_sound (n + k) b (omega arith) s)

header_round_sound :
    (limits : ParserLimits) (o : Option ℕ) (b : Bytes)
    → IsStart b
    → RoundSound b (header_round limits o b)
unfolding header_round
header_round_sound limits none b s =
    if_elim (RoundSound b) (ltb limits.max_header_bytes (length b)) (λ _. resync-Suffix limits b)
      (λ _. (0, refl))
header_round_sound limits (some e) b s =
    if_elim (RoundSound b) (ltb limits.max_header_bytes (e + 4)) (λ _. resync-Suffix limits b)
      (λ _.
        body_round_sound limits (e + 4) (content_length_from_header (take (e + 4) b)) b
          (omega arith) s)

resynced_sound : (b : Bytes) (r : Bytes × Bool) → Suffix r.0 b → RoundSound b (resynced r)
unfolding resynced
resynced_sound b (b', true) s = s
resynced_sound b (b', false) s = s

pub round_sound : (limits : ParserLimits) (b : Bytes) → RoundSound b (round limits b)
unfolding round
round_sound limits [] = (0, refl)
round_sound limits (c ∷ rest) =
    if_elim P (c == b'$') (λ dollar. interleaved_round_sound (c ∷ rest) (inl (ground arith)))
      (λ _.
        if_elim P (not (is_rtsp_message_start_at (c ∷ rest) 0))
          (λ _.
            resynced_sound (c ∷ rest) (resync_message_buffer limits (c ∷ rest))
              (resync-Suffix limits (c ∷ rest)))
          (λ start.
            header_round_sound limits (find blank_line (c ∷ rest)) (c ∷ rest)
              (inr (not-false start))))
  where
    P : Round → Type 0
    P = RoundSound (c ∷ rest)

Suffix-split : (b b' : Bytes) → Suffix b' b → (junk : Bytes) × (b ≡ junk ++ b')
Suffix-split b b' (n, e) = (take n b, rw e (sym (take-append-drop n b)))

-- What a message that is handed out is to the buffer.
abbrev Stretch : Bytes → Bytes → Bytes → Type 0
Stretch b m r = (junk : Bytes) × (b ≡ junk ++ (m ++ r)) × (4 ≤ length m) × IsStart (m ++ r)

Stretch-suffix : (b b' m r : Bytes) → Suffix b' b → Stretch b' m r → Stretch b m r
Stretch-suffix b b' m r s (junk, e, l, t) =
    let (before, f) = Suffix-split b b' s in
    (before ++ junk, f ∙ ap (λ x. before ++ x) e ∙ sym (append_assoc before junk (m ++ r)), l, t)

-- The end of a round, read as the result of the call.
abbrev pub Ends : ℕ → ParserLimits → Round → Extracted → Type 0
Ends fuel limits (done result) x = result ≡ x
Ends fuel limits (again b') x = extract_one_rtsp_message fuel limits b' ≡ x

pub extract-Ends :
    (fuel : ℕ) (limits : ParserLimits) (b : Bytes)
    → Ends fuel limits (round limits b) (extract_one_rtsp_message (suc fuel) limits b)
unfolding extract_one_rtsp_message
extract-Ends fuel limits b = from (round limits b)
  where
    from :
        (x : Round)
        → Ends fuel limits x (elim x as (λ _. Extracted) [
          | done result ↦ result
          | again b' ↦ extract_one_rtsp_message fuel limits b'
        ])
    from (done result) = refl
    from (again b') = refl

-- A message that is handed out is a stretch of the buffer, of four bytes at least, that begins
-- like a message; what stood before it is gone and what stands behind it is the buffer left.
pub extract_sound :
    (fuel : ℕ) (limits : ParserLimits) (b m r : Bytes)
    → extract_one_rtsp_message fuel limits b ≡ got m r
    → (junk : Bytes) × (b ≡ junk ++ (m ++ r)) × (4 ≤ length m) × IsStart (m ++ r)
extract_sound zero limits b m r e = unfold extract_one_rtsp_message in cc
extract_sound (suc fuel) limits b m r e =
    from (round limits b) (round_sound limits b) (extract-Ends fuel limits b)
      (λ b'. extract_sound fuel limits b' m r)
  where
    from :
        (x : Round)
        → RoundSound b x
        → Ends fuel limits x (extract_one_rtsp_message (suc fuel) limits b)
        → ((b' : Bytes) → extract_one_rtsp_message fuel limits b' ≡ got m r → Stretch b' m r)
        → Stretch b m r
    from (done result) s q later =
        let (split, long, start) = subst (λ x. RoundSound b (done x)) (q ∙ e) s in
        ([], split, long, subst IsStart split start)
    from (again b') s q later = Stretch-suffix b b' m r s (later b' (q ∙ e))
