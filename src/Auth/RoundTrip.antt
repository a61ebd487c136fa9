-- ===== src/Auth/RoundTrip.antt =====
-- What `Parse` accepts, and that it accepts what `Issue` made.
use Prim.Native.String.{◌++◌}
use enterprise_workflow_plat.Common.{
  ◌+◌, String, List, [], ◌∷◌, some, Bool, true, false, not, ◌||◌, ◌==◌, ok, err, ◌≡◌, ◌≢◌, ◌↔◌,
  refl, sym, ◌∙◌, ap, arith, eq_iff, eq_refl, inl, inr, Bool-cases, Option-cases, Text-cases,
  if◌then◌else◌, subst,
}
use enterprise_workflow_plat.Common.Int64.{is_positive, leb_signed}
use enterprise_workflow_plat.Common.Texts.{split, Lacks, split-joined, split-eq_two}
use enterprise_workflow_plat.Domain.{Time, Int64}
use enterprise_workflow_plat.Auth.{
  Role, Claims, Codec, Manager, invalid_token, expired_token, sign, issue, parse, parse_parts,
  read_claims, check_claims, valid_role, unix, dot,
}

-- Claims that `Parse` lets pass at a time.
pub record Passes (now : Time) (c : Claims) : Type 0 where
  pub subject : c.subject ≢ ""
  pub tenant : c.tenant_id ≢ ""
  pub role : valid_role c.role ≡ true
  pub time : leb_signed c.expires (unix now) ≡ false

check_claims-Passes :
    (now : Time) (c d : Claims) → check_claims now c ≡ ok d → Passes now c × (c ≡ d)
unfolding check_claims
check_claims-Passes now c d e =
    elim (Bool-cases (c.subject == "" || c.tenant_id == "" || not (valid_role c.role))) [
      | inl bad ↦ let h : err invalid_token ≡ ok d = rw (bad, check_claims) at e in cc
      | inr good ↦ elim (Bool-cases (leb_signed c.expires (unix now))) [
        | inl late ↦ let h : err expired_token ≡ ok d = rw (good, check_claims, late) at e in cc
        | inr time ↦
            let h : ok c ≡ ok d = rw (good, check_claims, time) at e in
            (
              record {
                subject = ground (arith, eq_iff c.subject "");
                tenant = ground (arith, eq_iff c.tenant_id "");
                role = ground arith;
                time = time;
              },
              cc,
            )
      ]
    ]

check_claims-accepts : (now : Time) (c : Claims) → Passes now c → check_claims now c ≡ ok c
unfolding check_claims
check_claims-accepts now c p =
    ground (arith, p.subject, p.tenant, p.role, p.time, eq_iff c.subject "", eq_iff c.tenant_id "")

-- The alphabet of base64 for URLs has no dot: its texts contain none, and no text with one decodes.
pub record NoDots (codec : Codec) : Type 0 where
  pub encoded : (s : String) → Lacks dot (codec.encode_base64 s)
  pub decoded : (s t : String) → codec.decode_base64 s ≡ some t → Lacks dot s

-- A token that carries these claims, signed with the manager's secret.
abbrev pub Carries : Codec → Manager → String → Claims → Type 0
Carries codec m token c =
    (encoded : String) × (token ≡ encoded ++ String.◌∷◌ dot (sign codec m encoded))
    × (read_claims codec encoded ≡ some c)

module _ (codec : Codec) (m : Manager) (now : Time) where
  parse_signed :
      (encoded : String) (c : Claims)
      → read_claims codec encoded ≡ some c
      → parse_parts codec m now (encoded, sign codec m encoded ∷ []) ≡ check_claims now c
  unfolding parse_parts
  parse_signed encoded c h = rw (eq_refl (sign codec m encoded), parse_parts, h) refl

  parse_parts-Carries :
      (parts : String × List String) (d : Claims)
      → parse_parts codec m now parts ≡ ok d
      → (parts ≡ (parts.0, sign codec m parts.0 ∷ []))
        × (read_claims codec parts.0 ≡ some d)
        × Passes now d
  unfolding parse_parts
  parse_parts-Carries (encoded, []) d e = cc
  parse_parts-Carries (encoded, signature ∷ more ∷ others) d e = cc
  parse_parts-Carries (encoded, signature ∷ []) d e =
      elim (Text-cases (sign codec m encoded) signature) [
        | inr (_, test) ↦ let h : err invalid_token ≡ ok d = rw (test, parse_parts) at e in cc
        | inl same ↦ elim (Option-cases (read_claims codec encoded)) [
          | inl missing ↦
              let h : err invalid_token ≡ ok d =
                rw ((eq_iff (sign codec m encoded) signature).1 same, parse_parts, missing) at e in
              cc
          | inr (c, found) ↦
              let h : check_claims now c ≡ ok d =
                rw ((eq_iff (sign codec m encoded) signature).1 same, parse_parts, found) at e in
              let (p, is) = check_claims-Passes now c d h in
              (ap (λ s. (encoded, s ∷ [])) (sym same), found ∙ ap some is, subst (Passes now) is p)
        ]
      ]

  pub parse-Passes : (token : String) (c : Claims) → parse codec m now token ≡ ok c → Passes now c
  unfolding parse
  parse-Passes token c e = let (_, _, passes) = parse_parts-Carries (split dot token) c e in passes

  -- `parse` accepts a token with some claims exactly if the token is a payload that reads as those
  -- claims, a dot, and the payload's signature under the manager's secret, and the claims pass:
  -- subject and tenant are there, the role is one of the five, and the time of expiry is still to
  -- come. Base64 texts have no dots.
  pub parse_iff :
      (token : String) (c : Claims)
      → NoDots codec
      → (parse codec m now token ≡ ok c) ↔ (Carries codec m token c × Passes now c)
  unfolding parse sign read_claims
  parse_iff token c law = (
    λ e.
        let (parts, reads, passes) = parse_parts-Carries (split dot token) c e in
        (((split dot token).0, split-eq_two dot token _ _ parts, reads), passes),
    λ ((encoded, is, reads), passes).
        let plain : Lacks dot encoded = elim (Option-cases (codec.decode_base64 encoded)) [
          | inl missing ↦ absurd (ground arith)
          | inr (payload, found) ↦ law.decoded encoded payload found
        ] in
        ap (λ t. parse_parts codec m now (split dot t)) is
        ∙ ap (parse_parts codec m now)
            (split-joined dot encoded (sign codec m encoded) plain (law.encoded _))
        ∙ parse_signed encoded c reads
        ∙ check_claims-accepts now c passes,
  )

-- What JSON and base64 do with these claims: the payload reads back.
pub record ReadsBack (codec : Codec) (c : Claims) (payload : String) : Type 0 where
  pub marshalled : codec.marshal c ≡ some payload
  pub decoded : codec.decode_base64 (codec.encode_base64 payload) ≡ some payload
  pub unmarshalled : codec.unmarshal payload ≡ some c

abbrev pub issued_claims : Time → String → String → Role → Int64 → Claims
issued_claims issued subject tenant role ttl = record {
  subject = subject;
  tenant_id = tenant;
  role = role;
  expires = unix (issued + ttl);
}

module _ (codec : Codec) (m : Manager) (issued now : Time) (subject tenant : String) (role : Role)
    (ttl : Int64) (token payload : String) where
  abbrev claims : Claims
  claims = issued_claims issued subject tenant role ttl

  abbrev refuses : Bool
  refuses = subject == "" || tenant == "" || not (valid_role role) || not (is_positive ttl)

  issue_token :
      codec.marshal claims ≡ some payload
      → issue codec m issued subject tenant role ttl ≡ ok token
      → (refuses ≡ false)
        × (token
            ≡ codec.encode_base64 payload
              ++ String.◌∷◌ dot (sign codec m (codec.encode_base64 payload)))
  unfolding issue
  issue_token marshalled e = elim (Bool-cases refuses) [
    | inl bad ↦ let h : err invalid_token ≡ ok token = rw (bad, issue) at e in cc
    | inr good ↦
        let h : ok (
              codec.encode_base64 payload
              ++ String.◌∷◌ dot (sign codec m (codec.encode_base64 payload)))
            ≡ ok token =
          rw (good, issue, marshalled) at e in
        (good, cc)
  ]

  -- A token that `issue` returned parses, at any time and with the same secret, as the claims it was
  -- issued for, or as expired once the time has reached the end of its lifetime. JSON and base64
  -- read back what they wrote for these claims, and base64 texts have no dots.
  pub issue-parse :
      NoDots codec
      → ReadsBack codec (issued_claims issued subject tenant role ttl) payload
      → issue codec m issued subject tenant role ttl ≡ ok token
      → parse codec m now token ≡ (
          if leb_signed (unix (issued + ttl)) (unix now)
          then err expired_token
          else ok (issued_claims issued subject tenant role ttl))
  unfolding parse check_claims sign read_claims
  issue-parse law back e =
      let (good, is) = issue_token back.marshalled e in
      let encoded = codec.encode_base64 payload in
      ap (λ t. parse_parts codec m now (split dot t)) is
      ∙ ap (parse_parts codec m now)
          (split-joined dot encoded (sign codec m encoded) (law.encoded payload) (law.encoded _))
      ∙ parse_signed codec m now encoded claims (rw (back.decoded, read_claims) back.unmarshalled)
      ∙ ground (arith, good)
