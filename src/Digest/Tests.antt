-- ===== src/Digest/Tests.antt =====
-- Runs of the digest authentication.
use rpi_server.Prelude.{◌≡◌, refl, true, ◌++◌}
use rpi_server.Bytes.{Bytes, codes}
use rpi_server.Digest.{
  DigestChallenge, digest_param, parse_digest_challenge, make_nc, DigestAuthenticator, authorize,
}

abbrev unauthorized : Bytes
unauthorized =
    codes
      "RTSP/1.0 401 Unauthorized\r\nWWW-Authenticate: Digest realm=\"cam\", nonce=\"n1\", qop=\"auth, auth-int\"\r\n\r\n"

abbrev offered : DigestChallenge
offered = record { valid = true; realm = codes "cam"; nonce = codes "n1"; qop = codes "auth" }

offered_parsed : parse_digest_challenge unauthorized ≡ offered
unfolding parse_digest_challenge digest_param
offered_parsed = refl

nc_padded : make_nc 26 ≡ codes "0000001a"
unfolding make_nc
nc_padded = refl

abbrev same_text : Bytes → Bytes
same_text text = codes "h(" ++ (text ++ codes ")")

abbrev account : DigestAuthenticator
account = record {
  camera_user = codes "u";
  camera_password = codes "p";
  challenge = offered;
  nc = 2;
}

-- The header that stood there is replaced, with the response that RFC 2617 states.
header_replaced :
    authorize same_text
      (codes "PLAY rtsp://h/1 RTSP/1.0\r\nAuthorization: old\r\nCSeq: 3\r\n\r\n")
      account
    ≡ (
      codes
          "PLAY rtsp://h/1 RTSP/1.0\r\nAuthorization: Digest username=\"u\", realm=\"cam\", nonce=\"n1\", uri=\"rtsp://h/1\", response=\"h(h(u:cam:p):n1:00000002:rpi-rtsps-proxy:auth:h(PLAY:rtsp://h/1))\", qop=auth, nc=00000002, cnonce=\"rpi-rtsps-proxy\"\r\nCSeq: 3\r\n\r\n",
      record account { nc = 3 },
    )
unfolding authorize
header_replaced = refl
