-- ===== src/Auth/Tests.antt =====
-- A token that is issued and parsed, and the theorems at it.
use Prim.Native.String.{◌++◌}
use enterprise_workflow_plat.Common.{
  String, none, some, ◌==◌, ok, err, ◌≡◌, ◌↔◌, refl, arith, inl, inr, if◌then◌else◌, Text-cases,
  subst,
}
use enterprise_workflow_plat.Common.Int64.{leb_signed}
use enterprise_workflow_plat.Common.Texts.{Lacks, same_char, Char-cases}
use enterprise_workflow_plat.Auth.{
  Claims, Codec, Manager, expired_token, sign, issue, parse, valid_role, unix, dot,
}
use enterprise_workflow_plat.Auth.RoundTrip.{
  NoDots, ReadsBack, Carries, Passes, parse_iff, issue-parse, issued_claims,
}

-- An encoding without dots, for texts that have none.
unfoldable pub plain : String → String
plain String.[] = String.[]
plain (String.◌∷◌ c s) = if same_char c dot then plain s else String.◌∷◌ c (plain s)

plain-Lacks : (s : String) → Lacks dot (plain s)
unfolding plain
plain-Lacks String.[] = tt
plain-Lacks (String.◌∷◌ c s) = elim (Char-cases c dot) [
  | inl (_, test) ↦ rw (test, plain) (plain-Lacks s)
  | inr (other, test) ↦ rw (test, plain) (other, plain-Lacks s)
]

abbrev pub ada : Claims
ada = record { subject = "ada"; tenant_id = "acme"; role = "approver"; expires = 60 }

abbrev pub codec : Codec
codec = record {
  marshal = λ c. some "ada";
  unmarshal = λ s. if s == "ada" then some ada else none;
  encode_base64 = plain;
  decode_base64 = λ s. if plain s == s then some s else none;
  hmac_sha256 = λ secret payload. secret ++ payload;
}

codec-NoDots : NoDots codec
codec-NoDots = record {
  encoded = plain-Lacks;
  decoded = λ s t e. elim (Text-cases (plain s) s) [
    | inl same ↦ subst (Lacks dot) same (plain-Lacks s)
    | inr (_, test) ↦ absurd (ground arith)
  ];
}

abbrev pub manager : Manager
manager = record { secret = "a-secret-of-thirty-two-characters" }

abbrev pub ada_token : String
ada_token = "ada.a-secret-of-thirty-two-charactersada"

issued : issue codec manager 0 "ada" "acme" "approver" 60000000000 ≡ ok ada_token
unfolding issue plain sign valid_role
issued = refl

codec-ReadsBack : ReadsBack codec (issued_claims 0 "ada" "acme" "approver" 60000000000) "ada"
unfolding plain unix
codec-ReadsBack = record { marshalled = refl; decoded = refl; unmarshalled = refl }

issue-parse_example : parse codec manager 59000000000 ada_token ≡ (
    if leb_signed (unix 60000000000) (unix 59000000000)
    then err expired_token
    else ok (issued_claims 0 "ada" "acme" "approver" 60000000000))
issue-parse_example =
    issue-parse codec manager 0 59000000000 "ada" "acme" "approver" 60000000000 ada_token "ada"
      codec-NoDots codec-ReadsBack issued

parse_iff_example :
    (parse codec manager 59000000000 ada_token ≡ ok ada)
    ↔ (Carries codec manager ada_token ada × Passes 59000000000 ada)
parse_iff_example = parse_iff codec manager 59000000000 ada_token ada codec-NoDots

pub parsed : parse codec manager 59000000000 ada_token ≡ ok ada
unfolding leb_signed unix
parsed = issue-parse_example

late : parse codec manager 60000000000 ada_token ≡ err expired_token
unfolding leb_signed unix
late =
    issue-parse codec manager 0 60000000000 "ada" "acme" "approver" 60000000000 ada_token "ada"
      codec-NoDots codec-ReadsBack issued
