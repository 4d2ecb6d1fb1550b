-- ===== src/Control/Reply.antt =====
-- src/live/live_rtsp_server.cpp: what is sent back, `reason_phrase`, `make_response`, `build_sdp`,
-- and the session id.
use rpi_server.Prelude.{
  ℕ, zero, suc, ◌+◌, ◌-◌, ◌/◌, ◌%◌, List, [], ◌∷◌, ◌++◌, ltb, ◌==◌, if◌then◌else◌, length,
}
use rpi_server.Prelude.Int.{ℤ}
use rpi_server.Bytes.{Bytes, codes, crlf}
use rpi_server.Bytes.Number.{to_string, to_string_ℤ}
use rpi_server.FrameQueue.{VideoCodec, h264, h265}
use rpi_server.Rtp.{payload_type}

unfoldable pub reason_phrase : ℕ → Bytes
reason_phrase status =
    if status == 200
    then codes "OK"
    else if status == 400
    then codes "Bad Request"
    else if status == 404
    then codes "Not Found"
    else if status == 405
    then codes "Method Not Allowed"
    else if status == 454
    then codes "Session Not Found"
    else if status == 455
    then codes "Method Not Valid in This State"
    else if status == 461
    then codes "Unsupported Transport"
    else codes "Error"

header_lines : List Bytes → Bytes
header_lines [] = []
header_lines (header ∷ headers) = header ++ (crlf ++ header_lines headers)

-- `if (!text.empty()) out << name << text << "\r\n"`
unless_empty : Bytes → Bytes → Bytes
unless_empty name [] = []
unless_empty name (c ∷ text) = name ++ ((c ∷ text) ++ crlf)

body_line : Bytes → Bytes
unfolding to_string
body_line [] = []
body_line (c ∷ body) = codes "Content-Length: " ++ (to_string (length (c ∷ body)) ++ crlf)

unfoldable pub make_response : ℕ → Bytes → List Bytes → Bytes → Bytes
unfolding reason_phrase to_string header_lines unless_empty body_line
make_response status cseq headers body =
    codes "RTSP/1.0 "
    ++ (to_string status
        ++ (codes " "
            ++ (reason_phrase status
                ++ (crlf
                    ++ (unless_empty (codes "CSeq: ") cseq
                        ++ (codes "Server: rpi-vms-m3\r\n"
                            ++ (header_lines headers ++ (body_line body ++ (crlf ++ body)))))))))

codec_name : VideoCodec → Bytes
codec_name h264 = codes "H264"
codec_name h265 = codes "H265"

unfoldable pub build_sdp : ℤ → VideoCodec → Bytes → Bytes
unfolding codec_name to_string to_string_ℤ unless_empty
build_sdp channel_id codec codec_fmtp =
    codes "v=0\r\no=- 0 0 IN IP4 0.0.0.0\r\ns=RPi VMS channel "
    ++ (to_string_ℤ channel_id
        ++ (codes "\r\nt=0 0\r\na=control:*\r\nm=video 0 RTP/AVP "
            ++ (to_string payload_type
                ++ (codes "\r\na=rtpmap:"
                    ++ (to_string payload_type
                        ++ (codes " "
                            ++ (codec_name codec
                                ++ (codes "/90000\r\n"
                                    ++ (unless_empty
                                          (codes "a=fmtp:" ++ (to_string payload_type ++ codes " "))
                                          codec_fmtp
                                        ++ codes "a=control:trackID=0\r\n")))))))))

-- A digit of `std::hex`.
hex_digit : ℕ → ℕ
hex_digit d = if ltb d 10 then b'0' + d else b'a' + (d - 10)

-- `std::hex << std::setfill('0') << std::setw(8) << n`, where `n` has 32 bits.
unfoldable pub hex_padded : ℕ → ℕ → Bytes
unfolding hex_digit
hex_padded zero n = []
hex_padded (suc width) n = hex_padded width (n / 16) ++ (hex_digit (n % 16) ∷ [])

-- The two numbers are what the random device yields.
unfoldable pub random_session_id : ℕ → ℕ → Bytes
unfolding hex_padded
random_session_id random1 random2 = hex_padded 8 random1 ++ hex_padded 8 random2
