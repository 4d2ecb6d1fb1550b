-- ===== src/Parser/Extract/Progress.antt =====
-- When the loop of `extract_one_rtsp_message` ends.
use rpi_server.Prelude.{
  ℕ, zero, drop, ◌≢◌, suc, ◌≤◌, ◌<◌, ◌≡◌, ◌⊎◌, ◌↔◌, inl, inr, refl, sym, ap, subst, ◌∙◌, Bool, [],
  ◌∷◌, length, arith, length-drop,
}
use rpi_server.Bytes.{Bytes}
use rpi_server.Parser.Extract.{
  ParserLimits, got, pending, stuck, Round, done, again, resynced, round, extract_one_rtsp_message,
}
use rpi_server.Parser.Extract.Starts.{
  IsNext, HasNoNext, find-IsNext, find-HasNoNext, IsNext-find, HasNoNext-find,
}
use rpi_server.Parser.Extract.Rejects.{
  IsJunk, IsRejected, resync_unchanged, resync_next, round_rejected, round_junk,
}
use rpi_server.Parser.Extract.Goes.{RoundGoes, round-Goes}
use rpi_server.Parser.Extract.Sound.{Ends, extract-Ends}

-- The buffers that keep the loop going for ever: what stands at the front is given up again and
-- again for the next start behind it, until a rejected message stands there with no start behind
-- it, in a buffer that is too short to be cleared.
pub data Loops (limits : ParserLimits) : Bytes → Type 0 where
  hanging :
      (b : Bytes)
      → IsRejected limits b
      → HasNoNext b
      → length b ≤ limits.max_header_bytes
      → Loops limits b
  skipping :
      (b : Bytes) (n : ℕ)
      → IsJunk b ⊎ IsRejected limits b
      → IsNext b n
      → Loops limits (drop n b)
      → Loops limits b

-- A buffer that a round leaves as it is.
abbrev pub Spins : ParserLimits → Bytes → Type 0
Spins limits b = round limits b ≡ again b

Ends_again :
    (fuel : ℕ) (limits : ParserLimits) (b b' : Bytes)
    → round limits b ≡ again b'
    → extract_one_rtsp_message fuel limits b' ≡ extract_one_rtsp_message (suc fuel) limits b
Ends_again fuel limits b b' e =
    subst (λ x. Ends fuel limits x (extract_one_rtsp_message (suc fuel) limits b)) e
      (extract-Ends fuel limits b)

pub Spins-stuck :
    (fuel : ℕ) (limits : ParserLimits) (b : Bytes)
    → Spins limits b
    → extract_one_rtsp_message fuel limits b ≡ stuck
Spins-stuck zero limits b s = unfold extract_one_rtsp_message in refl
Spins-stuck (suc fuel) limits b s = sym (Ends_again fuel limits b b s) ∙ Spins-stuck fuel limits b s

round_skipping :
    (limits : ParserLimits) (b : Bytes) (n : ℕ)
    → IsJunk b ⊎ IsRejected limits b
    → IsNext b n
    → round limits b ≡ again (drop n b)
unfolding resynced
round_skipping limits b n (inl j) next =
    round_junk limits b j ∙ ap resynced (resync_next limits b n (IsNext-find b n next))
round_skipping limits b n (inr r) next =
    round_rejected limits b r
    ∙ ap (λ (x : Bytes × Bool). again x.0) (resync_next limits b n (IsNext-find b n next))

Loops-stuck :
    (limits : ParserLimits) (fuel : ℕ) {b : Bytes}
    → Loops limits b
    → extract_one_rtsp_message fuel limits b ≡ stuck
Loops-stuck limits fuel (hanging b r n h) =
    Spins-stuck fuel limits b
      (round_rejected limits b r ∙ ap again (resync_unchanged limits b (HasNoNext-find b n) h))
Loops-stuck limits zero (skipping b n why next later) = unfold extract_one_rtsp_message in refl
Loops-stuck limits (suc fuel) (skipping b n why next later) =
    sym (Ends_again fuel limits b (drop n b) (round_skipping limits b n why next))
    ∙ Loops-stuck limits fuel later

nil_not_stuck :
    (fuel : ℕ) (limits : ParserLimits) → extract_one_rtsp_message (suc fuel) limits [] ≢ stuck
unfolding round extract_one_rtsp_message
nil_not_stuck fuel limits e = cc

rejected_fuel : (limits : ParserLimits) (b : Bytes) → IsRejected limits b → 0 < length b
rejected_fuel limits [] r = absurd r
rejected_fuel limits (c ∷ rest) r = omega arith

cleared_not_stuck :
    (fuel : ℕ) (limits : ParserLimits) → 0 < fuel → extract_one_rtsp_message fuel limits [] ≢ stuck
cleared_not_stuck zero limits h e = absurd (omega arith)
cleared_not_stuck (suc fuel) limits h e = nil_not_stuck fuel limits e

stuck-Loops :
    (fuel : ℕ) (limits : ParserLimits) (b : Bytes)
    → length b < fuel
    → extract_one_rtsp_message fuel limits b ≡ stuck
    → Loops limits b
stuck-Loops zero limits b h e = absurd (omega arith)
stuck-Loops (suc fuel) limits b h e =
    from (round limits b) (round-Goes limits b) (extract-Ends fuel limits b)
      (λ b'. stuck-Loops fuel limits b')
  where
    from :
        (x : Round)
        → RoundGoes limits b x
        → Ends fuel limits x (extract_one_rtsp_message (suc fuel) limits b)
        → ((b' : Bytes)
            → length b' < fuel
            → extract_one_rtsp_message fuel limits b' ≡ stuck
            → Loops limits b')
        → Loops limits b
    from (done (got m r)) s q later = cc
    from (done (pending b')) s q later = cc
    from (done stuck) s q later = absurd s
    from (again b') (inl (n, (f, (same, why)))) q later =
        let next = find-IsNext b n f in
        let (l, m, _, _) = next in
        let cut : extract_one_rtsp_message fuel limits (drop n b) ≡ stuck =
          subst (λ x. extract_one_rtsp_message fuel limits x ≡ stuck) same (q ∙ e) in
        skipping b n why next (later (drop n b) (omega (arith, l, m, length-drop n b)) cut)
    from (again b') (inr (r, (f, inl empty))) q later = absurd (
        cleared_not_stuck fuel limits (omega (arith, rejected_fuel limits b r))
          (subst (λ x. extract_one_rtsp_message fuel limits x ≡ stuck) empty (q ∙ e)))
    from (again b') (inr (r, (f, inr (short, same)))) q later =
        hanging b r (find-HasNoNext b f) short

-- With more fuel than the buffer has bytes, the loop is cut off exactly on the buffers that `Loops`
-- describes by their bytes alone: junk and rejected messages are given up for the next start behind
-- them, and the last one is a rejected message with no start behind it, in at most as many bytes as
-- a header may have. On every other buffer the loop ends.
pub stuck_iff :
    (fuel : ℕ) (limits : ParserLimits) (b : Bytes)
    → length b < fuel
    → (extract_one_rtsp_message fuel limits b ≡ stuck) ↔ Loops limits b
stuck_iff fuel limits b h = (stuck-Loops fuel limits b h, λ l. Loops-stuck limits fuel l)

pub extract_nil :
    (fuel : ℕ) (limits : ParserLimits) → extract_one_rtsp_message (suc fuel) limits [] ≡ pending []
unfolding round extract_one_rtsp_message
extract_nil fuel limits = refl
