-- ===== src/Jwt/Sound.antt =====
-- What `dsp_jwt_validate_es256` has established where it accepts.
use dsp_embedded.Prelude.{
  ℕ, ◌+◌, ◌≡◌, refl, ap, sym, ◌∙◌, true, false, Option, none, some, List, ◌∷◌, ◌++◌, arith, length,
  take, Text, Option-cases, inl, inr, ℤ,
}
use dsp_embedded.Jwt.{
  JwtErr, jwt_ok, JwtAlg, es256, JwtParts, split, base64url_decode, parse_alg, parse_exp,
  max_decode, is_late, check_expiry, check_payload, check_header, check_parts, check_split,
  and_then, finish_es256, verify_der, verify_with, check_structure, Crypto, rs_to_der, verify_es256,
  validate_es256,
}
use dsp_embedded.Jwt.Exp.{dotted, split_sound}
use dsp_embedded.Jwt.Accept.{signing_input, sized}

-- What the code has established where it accepts a token.
pub record Accepted (c : Crypto) (now : ℤ) (jwt : Text) (pubkey_der : List ℕ) : Type 0 where
  pub parts : JwtParts
  pub joined_by_dots : jwt ≡ dotted parts.header parts.payload parts.sig
  pub hdr : List ℕ
  pub header_decoded : base64url_decode parts.header 128 ≡ some hdr
  pub right_alg : parse_alg (some hdr) ≡ es256
  pub pay : List ℕ
  pub payload_decoded : base64url_decode parts.payload max_decode ≡ some pay
  pub exp : ℕ
  pub expiry_found : parse_exp (some pay) ≡ (jwt_ok, exp)
  pub still_valid : is_late now exp ≡ false
  pub raw : List ℕ
  pub signature_decoded : base64url_decode parts.sig 64 ≡ some raw
  pub signature_size : length raw ≡ 64
  pub der : List ℕ
  pub converted : rs_to_der raw ≡ some der
  pub key : c.Key
  pub key_parsed : c.parse_public_key pubkey_der ≡ some key
  pub verified : c.pk_verify key (c.sha256 (parts.header ++ (46 ∷ parts.payload))) der ≡ true

check_header-ok :
    (a : JwtAlg) (o : Option (List ℕ))
    → check_header a o ≡ jwt_ok
    → (hdr : List ℕ) × (o ≡ some hdr) × (parse_alg (some hdr) ≡ a)
check_header-ok a none e = absurd (cc)
check_header-ok a (some hdr) e = (hdr, refl, ground arith)

check_expiry-ok :
    (now : ℤ) (r : JwtErr × ℕ)
    → check_expiry now r ≡ jwt_ok
    → (e : ℕ) × (r ≡ (jwt_ok, e)) × (is_late now e ≡ false)
check_expiry-ok now r e = (r.1, ground arith, ground arith)

check_payload-ok :
    (now : ℤ) (o : Option (List ℕ))
    → check_payload now o ≡ jwt_ok
    → (pay : List ℕ) × (o ≡ some pay)
      × ((e : ℕ) × (parse_exp (some pay) ≡ (jwt_ok, e)) × (is_late now e ≡ false))
check_payload-ok now none e = absurd (cc)
check_payload-ok now (some pay) e = (pay, refl, check_expiry-ok now (parse_exp (some pay)) e)

and_then-ok : (a b : JwtErr) → and_then a b ≡ jwt_ok → (a ≡ jwt_ok) × (b ≡ jwt_ok)
and_then-ok a b e = ground arith

verify_with-ok :
    (c : Crypto) (digest sig : List ℕ) (o : Option c.Key)
    → verify_with c digest sig o ≡ jwt_ok
    → (key : c.Key) × (o ≡ some key) × (c.pk_verify key digest sig ≡ true)
verify_with-ok c digest sig none e = absurd (cc)
verify_with-ok c digest sig (some key) e = (key, refl, ground arith)

finish_es256-ok :
    (c : Crypto) (jwt key : List ℕ) (r : JwtErr × Option JwtParts)
    → finish_es256 c jwt key r ≡ jwt_ok
    → r.0 ≡ jwt_ok
finish_es256-ok c jwt key (err, none) e = e
finish_es256-ok c jwt key (err, some p) e =
    (and_then-ok err (verify_es256 c jwt p key (base64url_decode p.sig 64)) e).0

-- The signature's part of an acceptance.
record Signed (c : Crypto) (jwt : Text) (parts : JwtParts) (pubkey_der : List ℕ) : Type 0 where
  raw : List ℕ
  decoded : base64url_decode parts.sig 64 ≡ some raw
  size : length raw ≡ 64
  der : List ℕ
  converted : rs_to_der raw ≡ some der
  key : c.Key
  parsed : c.parse_public_key pubkey_der ≡ some key
  verified :
      c.pk_verify key (c.sha256 (take (length parts.header + 1 + length parts.payload) jwt)) der
      ≡ true

verify_es256-ok :
    (c : Crypto) (jwt : Text) (parts : JwtParts) (key : List ℕ)
    → verify_es256 c jwt parts key (base64url_decode parts.sig 64) ≡ jwt_ok
    → Signed c jwt parts key
verify_es256-ok c jwt parts key e = elim (Option-cases (base64url_decode parts.sig 64)) [
  | inl n ↦ absurd (let h = ap (verify_es256 c jwt parts key) (sym n) ∙ e in cc)
  | inr (raw, q) ↦
      let h = ap (verify_es256 c jwt parts key) (sym q) ∙ e in
      let size : length raw ≡ 64 = ground arith in
      let next = sym (sized (length raw) size (verify_der c jwt parts key (rs_to_der raw))) ∙ h in
      elim (Option-cases (rs_to_der raw)) [
        | inl n ↦ absurd (let f = ap (verify_der c jwt parts key) (sym n) ∙ next in cc)
        | inr (der, d) ↦
            let f = ap (verify_der c jwt parts key) (sym d) ∙ next in
            let digest = c.sha256 (take (length parts.header + 1 + length parts.payload) jwt) in
            let (pk, parsed, ok) = verify_with-ok c digest der (c.parse_public_key key) f in
            record {
              raw = raw;
              decoded = q;
              size = size;
              der = der;
              converted = d;
              key = pk;
              parsed = parsed;
              verified = ok;
            }
      ]
]

-- Every token that `dsp_jwt_validate_es256` accepts consists of three parts joined by full stops: a
-- header that decodes to one with the right algorithm, a payload that decodes to one whose expiry is
-- ahead of the clock, and a signature of 64 bytes whose DER form mbedTLS verifies, under the key that
-- was given, over the hash of the first two parts and the full stop between them.
pub validate_es256-Accepted :
    (c : Crypto) (now : ℤ) (jwt : Text) (k : ℕ) (ks : List ℕ)
    → validate_es256 c now (some jwt) (some (k ∷ ks)) ≡ jwt_ok
    → Accepted c now jwt (k ∷ ks)
unfolding validate_es256 check_structure
validate_es256-Accepted c now jwt k ks e = elim (Option-cases (split (some jwt)).1) [
  | inl n ↦
      absurd
        (let h = ap (λ o. finish_es256 c jwt (k ∷ ks) (check_split now es256 o)) (sym n) ∙ e in cc)
  | inr (parts, q) ↦
      let h = ap (λ o. finish_es256 c jwt (k ∷ ks) (check_split now es256 o)) (sym q) ∙ e in
      let (structure, signature) =
        and_then-ok (check_parts now es256 parts)
          (verify_es256 c jwt parts (k ∷ ks) (base64url_decode parts.sig 64)) h in
      let (head, body) =
        and_then-ok (check_header es256 (base64url_decode parts.header 128))
          (check_payload now (base64url_decode parts.payload max_decode)) structure in
      let (hdr, header_decoded, alg) =
        check_header-ok es256 (base64url_decode parts.header 128) head in
      let (pay, payload_decoded, (exp, found, valid)) =
        check_payload-ok now (base64url_decode parts.payload max_decode) body in
      let s = verify_es256-ok c jwt parts (k ∷ ks) signature in
      let joined = (split_sound jwt parts q).0 in
      let input =
        ap (take (length parts.header + 1 + length parts.payload)) joined
        ∙ signing_input parts.header parts.payload parts.sig in
      record {
        parts = parts;
        joined_by_dots = joined;
        hdr = hdr;
        header_decoded = header_decoded;
        right_alg = alg;
        pay = pay;
        payload_decoded = payload_decoded;
        exp = exp;
        expiry_found = found;
        still_valid = valid;
        raw = s.raw;
        signature_decoded = s.decoded;
        signature_size = s.size;
        der = s.der;
        converted = s.converted;
        key = s.key;
        key_parsed = s.parsed;
        verified = ap (λ i. c.pk_verify s.key (c.sha256 i) s.der) (sym input) ∙ s.verified;
      }
]
