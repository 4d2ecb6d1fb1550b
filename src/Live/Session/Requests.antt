-- ===== src/Live/Session/Requests.antt =====
-- src/live/live_rtsp_server.cpp: what the requests of a session come to.
use rpi_server.Prelude.{
  ℕ, zero, suc, inl, inr, refl, Bool, not, ◌&&◌, List, ◌++◌, ltb, if◌then◌else◌, if_elim, length,
  ◌+◌, ◌%◌, ◌^◌,
}
use rpi_server.Prelude.Int.{ℤ}
use rpi_server.Bytes.{Bytes, find, blank_line}
use rpi_server.FrameQueue.{VideoCodec}
use rpi_server.Parser.Extract.{
  ParserLimits, Extracted, got, pending, stuck, extract_one_rtsp_message,
}
use rpi_server.Control.{RtspControlState, RtspControlResult, process_rtsp_request}
use rpi_server.Control.Phases.{Move, process-Move}
use rpi_server.Live.{ParameterSets}
use rpi_server.Live.Channels.{Channel}
use rpi_server.Live.Session.Moves.{IsAnswer, Streams, answer-Streams, Move-Streams, started-Streams}
use rpi_server.Control.Errors.{OkOrKept, process-OkOrKept}
use rpi_server.Parser.Headers.{rtsp_status_code}
use rpi_server.Control.Reply.{make_response}
use rpi_server.Live.Session.{
  LiveSession, Turn, goes, leaves, write_failure, session_error, hangs, Reading, unreadable, over,
  arrived, is_found, has_method, bad_request, then_turn, is_interleaved, ask, answered,
  request_loop, write_last, check_rest_of_input, read_input,
}

-- A session as it may be after requests on the control state `first`.
abbrev pub IsStreaming : RtspControlState → LiveSession → Type 0
IsStreaming first s = Streams first s.control s.client

abbrev pub Ends : (LiveSession → Type 0) → Turn → Type 0
Ends P (goes s) = P s
Ends P (leaves s) = P s
Ends P (write_failure s) = P s
Ends P session_error = Unit
Ends P hangs = Unit

pub then_turn-Ends :
    (P : LiveSession → Type 0) (t : Turn) (next : LiveSession → Turn)
    → Ends P t
    → ((s : LiveSession) → P s → Ends P (next s))
    → Ends P (then_turn t next)
unfolding then_turn
then_turn-Ends P (goes s) next h k = k s h
then_turn-Ends P (leaves s) next h k = h
then_turn-Ends P (write_failure s) next h k = h
then_turn-Ends P session_error next h k = h
then_turn-Ends P hangs next h k = h

-- Every answer that a session writes is read as one.
bad_request-IsAnswer : IsAnswer bad_request
unfolding bad_request make_response rtsp_status_code
bad_request-IsAnswer = inr (inl refl)

OkOrKept-IsAnswer :
    (s : RtspControlState) (r : RtspControlResult × RtspControlState)
    → OkOrKept s r
    → IsAnswer r.0.response
OkOrKept-IsAnswer s (result, t) (inl fine) = inl fine
OkOrKept-IsAnswer s (result, t) (inr (e, _, _)) = inr e

process-IsAnswer :
    (random1 random2 : ℕ) (request : Bytes) (registered : ℤ) (codec : VideoCodec) (fmtp : Bytes)
    (s : RtspControlState)
    → IsAnswer (process_rtsp_request random1 random2 request registered codec fmtp s).0.response
process-IsAnswer random1 random2 request registered codec fmtp s =
    OkOrKept-IsAnswer s (process_rtsp_request random1 random2 request registered codec fmtp s)
      (process-OkOrKept random1 random2 request registered codec fmtp s)

module _ (takes : List Bytes → Bytes → Bool) (limits : ParserLimits) (channels : List Channel)
    (sets : List Bytes → ℤ → ParameterSets) (random1 random2 : List Bytes → ℕ)
    (first : RtspControlState) where
  answered-Ends :
      (fresh request : Bytes) (channel registered : ℤ) (r : RtspControlResult × RtspControlState)
      (s : LiveSession) (next : LiveSession → Turn)
      → Move fresh request channel registered s.control r.0.start_play r.0.close_session r.1
      → IsAnswer r.0.response
      → IsStreaming first s
      → ((u : LiveSession) → IsStreaming first u → Ends (IsStreaming first) (next u))
      → Ends (IsStreaming first) (answered takes limits channels sets random1 random2 r s next)
  unfolding answered
  answered-Ends fresh request channel registered (result, control) s next move a h k =
      let after =
        started-Streams first fresh request channel registered s.control control s.client
          result.response result.start_play result.close_session move a h in
      if_elim (Ends (IsStreaming first)) (not (takes s.client.wires result.response))
        (λ unwritten.
          Move-Streams first fresh request channel registered s.control control s.client
            result.start_play result.close_session move h)
        (λ yes_written.
          if_elim (Ends (IsStreaming first)) result.close_session (λ closes. after)
            (λ stays. k _ after))

  asked-Ends :
      (request : Bytes) (s : LiveSession) (next : LiveSession → Turn)
      → IsStreaming first s
      → ((u : LiveSession) → IsStreaming first u → Ends (IsStreaming first) (next u))
      → Ends (IsStreaming first) (
          answered takes limits channels sets random1 random2
            (ask takes limits channels sets random1 random2 request s)
            s
            next)
  unfolding ask
  asked-Ends request s next h k =
      answered-Ends _ request _ _ (ask takes limits channels sets random1 random2 request s) s next
        (process-Move _ _ request _ _ _ s.control) (process-IsAnswer _ _ request _ _ _ s.control) h
        k

  extracted-Ends :
      (e : Extracted) (s : LiveSession) (loop : LiveSession → Turn)
      → IsStreaming first s
      → ((u : LiveSession) → IsStreaming first u → Ends (IsStreaming first) (loop u))
      → Ends (IsStreaming first) (elim e [
        | stuck ↦ hangs
        | pending input ↦ goes (record s { input = input })
        | got request input ↦
            let t : LiveSession = record s { input = input } in
            if is_interleaved request
            then loop t
            else answered takes limits channels sets random1 random2
                (ask takes limits channels sets random1 random2 request t)
                t
                loop
      ])
  extracted-Ends stuck s loop h k = tt
  extracted-Ends (pending input) s loop h k = h
  extracted-Ends (got request input) s loop h k =
      if_elim (Ends (IsStreaming first)) (is_interleaved request) (λ frame. k _ h)
        (λ message. asked-Ends request (record s { input = input }) loop h k)

  request_loop-Ends :
      (fuel : ℕ) (s : LiveSession)
      → IsStreaming first s
      → Ends (IsStreaming first) (request_loop takes limits channels sets random1 random2 fuel s)
  unfolding request_loop
  request_loop-Ends zero s h = tt
  request_loop-Ends (suc fuel) s h =
      extracted-Ends (extract_one_rtsp_message (suc (length s.input)) limits s.input) s
        (request_loop takes limits channels sets random1 random2 fuel) h
        (λ u v. request_loop-Ends fuel u v)

  write_last-IsStreaming :
      (wire : Bytes) (s : LiveSession)
      → IsAnswer wire
      → IsStreaming first s
      → IsStreaming first (write_last takes limits channels sets random1 random2 wire s)
  unfolding write_last
  write_last-IsStreaming wire s a h =
      if_elim (IsStreaming first) (takes s.client.wires wire)
        (λ taken. answer-Streams first s.control s.client wire a h) (λ untaken. h)

  pub read_input-Ends :
      (r : Reading) (s : LiveSession)
      → IsStreaming first s
      → Ends (IsStreaming first) (read_input takes limits channels sets random1 random2 r s)
  unfolding read_input check_rest_of_input
  read_input-Ends unreadable s h = h
  read_input-Ends over s h = h
  read_input-Ends (arrived bytes) s h =
      let t : LiveSession = record s { input = s.input ++ bytes } in
      if_elim (Ends (IsStreaming first))
        (ltb ((limits.max_header_bytes + limits.max_body_bytes) % 2 ^ 64) (length t.input))
        (λ large. write_last-IsStreaming bad_request t bad_request-IsAnswer h)
        (λ small.
          then_turn-Ends (IsStreaming first)
            (request_loop takes limits channels sets random1 random2 (suc (length t.input)) t)
            (check_rest_of_input takes limits channels sets random1 random2)
            (request_loop-Ends (suc (length t.input)) t h)
            (λ u v.
              if_elim (Ends (IsStreaming first))
                (ltb 0 (length u.input)
                  && (is_found (find blank_line u.input) && not (has_method u.input)))
                (λ bad. write_last-IsStreaming bad_request u bad_request-IsAnswer v) (λ good. v)))
