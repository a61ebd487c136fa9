-- ===== src/Auth.antt =====
-- services/api/internal/auth/token.go: roles, tokens and the bearer header.
-- SHA-256 and the encodings of the standard library are parameters, in `Codec`; the system's clock
-- is an argument. A `time.Time` is a number of nanoseconds since 1970.
pub mod RoundTrip
pub mod Header
pub mod Tests
use Prim.Native.String.{◌++◌}
use enterprise_workflow_plat.Common.{
  ℕ, ◌+◌, ◌/◌, ◌%◌, String, List, [], ◌∷◌, Option, none, some, Bool, true, false, not, ◌||◌, ◌&&◌,
  ◌==◌, Result, ok, err, if◌then◌else◌, ltb,
}
use enterprise_workflow_plat.Common.Int64.{two_64, is_positive, leb_signed}
use enterprise_workflow_plat.Common.Texts.{split, fields, equal_fold, byte_length}
use Prim.Native.Char.{Char}
use enterprise_workflow_plat.Domain.{Time, Int64}

abbrev pub Role : Type 0
Role = String

abbrev pub role_admin : Role
role_admin = "admin"

abbrev pub role_builder : Role
role_builder = "builder"

abbrev pub role_requester : Role
role_requester = "requester"

abbrev pub role_approver : Role
role_approver = "approver"

abbrev pub role_auditor : Role
role_auditor = "auditor"

-- `ErrInvalidToken`, also wrapped with "bearer token required"; `ErrExpiredToken`; the two errors
-- that a secret and `json.Marshal` give.
pub data AuthError : Type 0 where
  invalid_token expired_token short_secret not_marshalled : AuthError

pub record Claims : Type 0 where
  pub subject : String
  pub tenant_id : String
  pub role : Role
  pub expires : Int64

-- `json.Marshal` and `json.Unmarshal` at `Claims`, `base64.RawURLEncoding`, and HMAC with SHA-256,
-- the secret first. Byte strings are texts.
pub record Codec : Type 0 where
  pub marshal : Claims → Option String
  pub unmarshal : String → Option Claims
  pub encode_base64 : String → String
  pub decode_base64 : String → Option String
  pub hmac_sha256 : String → String → String

-- `Manager` without its clock.
pub record Manager : Type 0 where
  pub secret : String

-- `len(secret) < 32`.
unfoldable pub new_manager : String → Result AuthError Manager
new_manager secret =
    if ltb (byte_length secret) 32 then err short_secret else ok (record { secret = secret })

unfoldable pub valid_role : Role → Bool
valid_role role =
    role == role_admin
    || role == role_builder
    || role == role_requester
    || role == role_approver
    || role == role_auditor

-- `t.Unix()`.
unfoldable pub unix : Time → Int64
unix t = (t / 1000000000) % two_64

abbrev pub dot : Char
dot = "."

-- The checks of `Parse` on claims that were read.
unfoldable pub check_claims : Time → Claims → Result AuthError Claims
check_claims now c =
    if c.subject == "" || c.tenant_id == "" || not (valid_role c.role)
    then err invalid_token
    else if leb_signed c.expires (unix now)
    then err expired_token
    else ok c

-- The middle of `Parse`: the payload that was signed.
unfoldable pub read_claims : Codec → String → Option Claims
read_claims codec encoded = elim (codec.decode_base64 encoded) [
  | none ↦ none
  | some payload ↦ codec.unmarshal payload
]

module _ (codec : Codec) (m : Manager) where
  unfoldable pub sign : String → String
  sign payload = codec.encode_base64 (codec.hmac_sha256 m.secret payload)

  -- A positive `ttl` is the number of its nanoseconds.
  unfoldable pub issue : Time → String → String → Role → Int64 → Result AuthError String
  issue now subject tenant role ttl =
      if subject == "" || tenant == "" || not (valid_role role) || not (is_positive ttl)
      then err invalid_token
      else elim (codec.marshal (record {
        subject = subject;
        tenant_id = tenant;
        role = role;
        expires = unix (now + ttl);
      })) [
        | none ↦ err not_marshalled
        | some payload ↦
            let encoded = codec.encode_base64 payload in
            ok (encoded ++ String.◌∷◌ dot (sign encoded))
      ]

  -- `Parse` on the parts of the token.
  unfoldable pub parse_parts : Time → String × List String → Result AuthError Claims
  parse_parts now (encoded, []) = err invalid_token
  parse_parts now (encoded, signature ∷ []) =
      if not (sign encoded == signature)
      then err invalid_token
      else elim (read_claims codec encoded) [
        | none ↦ err invalid_token
        | some c ↦ check_claims now c
      ]
  parse_parts now (encoded, signature ∷ more ∷ others) = err invalid_token

  unfoldable pub parse : Time → String → Result AuthError Claims
  parse now token = parse_parts now (split dot token)

-- `Bearer` on the fields of the header.
unfoldable pub bearer_of : List String → Result AuthError String
bearer_of [] = err invalid_token
bearer_of (scheme ∷ []) = err invalid_token
bearer_of (scheme ∷ token ∷ []) =
    if not (equal_fold scheme "Bearer") || token == "" then err invalid_token else ok token
bearer_of (scheme ∷ token ∷ more ∷ others) = err invalid_token

unfoldable pub bearer : String → Result AuthError String
bearer header = bearer_of (fields header)
