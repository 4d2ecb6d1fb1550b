-- ===== src/Digest.antt =====
-- src/rtsp/digest_authenticator.cpp: the proxy's Digest account at the camera. OpenSSL's MD5, in
-- hexadecimal digits, is a parameter.
mod Tests
use rpi_server.Prelude.{
  ℕ, suc, ◌+◌, ◌-◌, ◌%◌, ◌^◌, Bool, true, false, not, ◌&&◌, ◌||◌, Option, none, some, [], ◌∷◌, ◌++◌,
  ltb, ◌==◌, if◌then◌else◌, length, take, drop,
}
use rpi_server.Bytes.{Bytes, codes, crlf, blank_line, find, find_from}
use rpi_server.Parser.Text.{lower_copy, trim_copy, next_word}
use rpi_server.Parser.Headers.{header_value, get_first_line}
use rpi_server.Control.Reply.{hex_padded}

pub record DigestChallenge : Type 0 where
  pub valid : Bool
  pub realm : Bytes
  pub nonce : Bytes
  pub qop : Bytes

unfoldable pub is_nonempty : Bytes → Bool
is_nonempty [] = false
is_nonempty (c ∷ s) = true

up_to : Bytes → Option ℕ → Bytes
up_to text none = text
up_to text (some end) = take end text

quoted_value : Bytes → Option ℕ → Bytes
quoted_value text none = []
quoted_value text (some end) = take end text

-- The value behind `key=`.
value_at : Bytes → Bytes
unfolding up_to quoted_value trim_copy find
value_at [] = []
value_at (c ∷ text) =
    if c == 34
    then quoted_value text (find (34 ∷ []) text)
    else trim_copy (up_to (c ∷ text) (find (codes ",") (c ∷ text)))

param_at : Bytes → ℕ → Option ℕ → Bytes
unfolding value_at
param_at auth size none = []
param_at auth size (some at) = value_at (drop (at + size) auth)

unfoldable pub digest_param : Bytes → Bytes → Bytes
unfolding param_at lower_copy find
digest_param auth key =
    let needle = key ++ codes "=" in
    param_at auth (length needle) (find (lower_copy needle) (lower_copy auth))

no_challenge : DigestChallenge
no_challenge = record { valid = false; realm = []; nonce = []; qop = [] }

-- The first of the values that the camera offers.
first_qop : Bytes → Bytes
unfolding up_to trim_copy find
first_qop [] = []
first_qop (c ∷ qop) = trim_copy (up_to (c ∷ qop) (find (codes ",") (c ∷ qop)))

challenge_of : Bytes → Option ℕ → DigestChallenge
unfolding digest_param is_nonempty first_qop no_challenge
challenge_of auth none = no_challenge
challenge_of auth (some at) =
    let realm = digest_param auth (codes "realm") in
    let nonce = digest_param auth (codes "nonce") in
    record {
      valid = is_nonempty realm && is_nonempty nonce;
      realm = realm;
      nonce = nonce;
      qop = first_qop (digest_param auth (codes "qop"));
    }

unfoldable pub parse_digest_challenge : Bytes → DigestChallenge
unfolding challenge_of header_value lower_copy find
parse_digest_challenge message =
    let auth = header_value message (codes "WWW-Authenticate") in
    challenge_of auth (find (codes "digest") (lower_copy auth))

unfoldable pub make_nc : ℕ → Bytes
unfolding hex_padded
make_nc value = hex_padded 8 value

-- The line from `start` to `line_end`, replaced; without an end the rest of the text goes.
unfoldable pub replace_line : Bytes → Bytes → ℕ → Option ℕ → Bytes
replace_line out auth_header start none = take start out ++ auth_header
replace_line out auth_header start (some line_end) =
    take start out ++ (auth_header ++ drop line_end out)

-- At the blank line, and at the header that stands there already.
unfoldable pub add_at : Bytes → Bytes → Option ℕ → Option ℕ → Bytes
unfolding replace_line find_from
add_at request auth_header none line_start = request
add_at request auth_header (some header_end) none =
    take (header_end + 2) request ++ (auth_header ++ (crlf ++ drop (header_end + 2) request))
add_at request auth_header (some header_end) (some line_start) =
    if ltb line_start header_end
    then replace_line request auth_header (line_start + 2) (find_from crlf request (line_start + 2))
    else take (header_end + 2) request ++ (auth_header ++ (crlf ++ drop (header_end + 2) request))

unfoldable pub add_authorization_header : Bytes → Bytes → Bytes
unfolding add_at lower_copy find
add_authorization_header request auth_header =
    add_at request auth_header (find blank_line request)
      (find (crlf ++ codes "authorization:") (lower_copy request))

-- The account of the configuration, the challenge, and the count of the next request, which has 32
-- bits.
pub record DigestAuthenticator : Type 0 where
  pub camera_user : Bytes
  pub camera_password : Bytes
  pub challenge : DigestChallenge
  pub nc : ℕ

unfoldable pub new_authenticator : Bytes → Bytes → DigestAuthenticator
unfolding no_challenge
new_authenticator user password = record {
  camera_user = user;
  camera_password = password;
  challenge = no_challenge;
  nc = 1;
}

-- Whether the response has a challenge, which is then the one that counts.
unfoldable pub update_from_unauthorized : Bytes → DigestAuthenticator → Bool × DigestAuthenticator
unfolding parse_digest_challenge
update_from_unauthorized response a =
    let parsed = parse_digest_challenge response in
    if not parsed.valid then (false, a) else (true, record a { challenge = parsed })

abbrev pub cnonce : Bytes
cnonce = codes "rpi-rtsps-proxy"

abbrev pub quoted : Bytes → Bytes
quoted value = codes "=\"" ++ (value ++ codes "\"")

module _ (md5_hex : Bytes → Bytes) where
  unfoldable pub digest_response : DigestAuthenticator → Bytes → Bytes → ℕ → Bytes
  unfolding make_nc is_nonempty
  digest_response a method uri nc_value =
      let ha1 =
        md5_hex (
          a.camera_user
          ++ (codes ":" ++ (a.challenge.realm ++ (codes ":" ++ a.camera_password)))) in
      let ha2 = md5_hex (method ++ (codes ":" ++ uri)) in
      if is_nonempty a.challenge.qop
      then md5_hex (
          ha1
          ++ (codes ":"
              ++ (a.challenge.nonce
                  ++ (codes ":"
                      ++ (make_nc nc_value
                          ++ (codes ":" ++ (cnonce ++ (codes ":auth:" ++ ha2))))))))
      else md5_hex (ha1 ++ (codes ":" ++ (a.challenge.nonce ++ (codes ":" ++ ha2))))

  unfoldable pub qop_fields : DigestAuthenticator → ℕ → Bytes
  unfolding make_nc is_nonempty
  qop_fields a nc_value =
      if is_nonempty a.challenge.qop
      then codes ", qop=auth, nc=" ++ (make_nc nc_value ++ (codes ", cnonce" ++ quoted cnonce))
      else []

  unfoldable pub build_authorization : DigestAuthenticator → Bytes → Bytes → ℕ → Bytes
  unfolding digest_response qop_fields
  build_authorization a method uri nc_value =
      codes "Authorization: Digest username"
      ++ (quoted a.camera_user
          ++ (codes ", realm"
              ++ (quoted a.challenge.realm
                  ++ (codes ", nonce"
                      ++ (quoted a.challenge.nonce
                          ++ (codes ", uri"
                              ++ (quoted uri
                                  ++ (codes ", response"
                                      ++ (quoted (digest_response a method uri nc_value)
                                          ++ qop_fields a nc_value)))))))))

  unfoldable pub authorize : Bytes → DigestAuthenticator → Bytes × DigestAuthenticator
  unfolding build_authorization add_authorization_header next_word get_first_line is_nonempty
  authorize request a =
      let method = next_word (get_first_line request) in
      let uri = next_word method.1 in
      if not a.challenge.valid
      then (request, a)
      else if not (is_nonempty method.0) || not (is_nonempty uri.0)
      then (request, a)
      else (
        add_authorization_header request (build_authorization a method.0 uri.0 a.nc),
        record a { nc = (a.nc + 1) % 2 ^ 32 },
      )
