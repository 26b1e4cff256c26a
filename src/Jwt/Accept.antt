-- ===== src/Jwt/Accept.antt =====
-- Which tokens `dsp_jwt_validate_es256` accepts.
use dsp_embedded.Prelude.{
  ℕ, ◌+◌, ◌*◌, ◌/◌, ◌%◌, ◌≤◌, ◌<◌, ◌≡◌, ◌≢◌, refl, ap, ap₂, sym, ◌∙◌, true, not, some, List, [],
  ◌∷◌, ◌++◌, arith, if◌then◌else◌, ◌==◌, length, length-append, take, Text, AllBytes, pos,
  append_assoc,
}
use dsp_embedded.Jwt.{
  JwtErr, jwt_ok, crypto_failed, invalid_format, JwtAlg, es256, JwtParts, base64url_decode,
  parse_alg, parse_exp, max_decode, alg_eq, check_expiry, check_payload, check_header, check_parts,
  check_split, and_then, finish_es256, verify_der, verify_with, check_structure, Crypto, rs_to_der,
  verify_es256, validate_es256,
}
use dsp_embedded.Jwt.Base64.{char_of, encode, base64url_decode-encode}
use dsp_embedded.Jwt.Exp.{HasNoDot, dotted, split-dotted}

-- The compact form of a token.
abbrev pub token : List ℕ → List ℕ → List ℕ → Text
token hdr pay sig = dotted (encode hdr) (encode pay) (encode sig)

char_of-dot : (v : ℕ) → char_of v ≢ 46
char_of-dot v e = absurd (ground arith)

encode-HasNoDot : (bs : List ℕ) → HasNoDot (encode bs)
encode-HasNoDot [] = tt
encode-HasNoDot (x ∷ []) = (char_of-dot (x / 4), (char_of-dot (x % 4 * 16), tt))
encode-HasNoDot (x ∷ y ∷ []) =
    (char_of-dot (x / 4), (char_of-dot (x % 4 * 16 + y / 16), (char_of-dot (y % 16 * 4), tt)))
encode-HasNoDot (x ∷ y ∷ z ∷ bs) = (
  char_of-dot (x / 4),
  (
    char_of-dot (x % 4 * 16 + y / 16),
    (char_of-dot (y % 16 * 4 + z / 64), (char_of-dot (z % 64), encode-HasNoDot bs)),
  ),
)

take-length : (xs ys : List ℕ) → take (length xs) (xs ++ ys) ≡ xs
take-length [] ys = refl
take-length (x ∷ xs) ys = ap (◌∷◌ x) (take-length xs ys)

-- The signing input, which the code takes from the token by its length.
pub signing_input : (h p s : Text) → take (length h + 1 + length p) (dotted h p s) ≡ h ++ (46 ∷ p)
signing_input h p s =
    let l : length h + 1 + length p ≡ length (h ++ (46 ∷ p)) =
      omega (arith, length-append h (46 ∷ p)) in
    ap₂ take l (sym (append_assoc h (46 ∷ p) (46 ∷ s))) ∙ take-length (h ++ (46 ∷ p)) (46 ∷ s)

alg_eq-same : (a : JwtAlg) → alg_eq a a ≡ true
alg_eq-same a = ground arith

check_parts-token :
    (now e : ℕ) (hdr pay sig : List ℕ)
    → AllBytes hdr
    → AllBytes pay
    → length hdr ≤ 128
    → length pay ≤ max_decode
    → parse_alg (some hdr) ≡ es256
    → parse_exp (some pay) ≡ (jwt_ok, e)
    → now < e
    → check_parts
        (pos now)
        es256
        (record { header = encode hdr; payload = encode pay; sig = encode sig })
      ≡ jwt_ok
check_parts-token now e hdr pay sig bh bp lh lp alg exp early =
    let h : check_header es256 (some hdr) ≡ jwt_ok = ground (arith, alg) in
    let p : check_payload (pos now) (some pay) ≡ jwt_ok =
      ap (check_expiry (pos now)) exp ∙ ground (arith, early) in
    ap₂ and_then (ap (check_header es256) (base64url_decode-encode hdr 128 bh lh) ∙ h)
      (ap (check_payload (pos now)) (base64url_decode-encode pay max_decode bp lp) ∙ p)

-- The test of the signature's size.
pub sized :
    (n : ℕ) → n ≡ 64 → (next : JwtErr) → (if not (n == 64) then invalid_format else next) ≡ next
sized n h next = ground (arith, h)

-- A token that encodes a header with the right algorithm, a payload that has not expired and a raw
-- signature of 64 bytes is accepted by `dsp_jwt_validate_es256` exactly if mbedTLS verifies the DER
-- form of that signature over the hash of the encoded header and payload, joined with a full stop, and
-- fails with DSP_JWT_ERR_CRYPTO otherwise; the header and the payload must fit their buffers, and the
-- key must parse.
pub validate_es256-token :
    (c : Crypto) (now e k : ℕ) (ks hdr pay rs der : List ℕ) (key : c.Key)
    → AllBytes hdr
    → AllBytes pay
    → AllBytes rs
    → length hdr ≤ 128
    → length pay ≤ max_decode
    → length rs ≡ 64
    → parse_alg (some hdr) ≡ es256
    → parse_exp (some pay) ≡ (jwt_ok, e)
    → now < e
    → c.parse_public_key (k ∷ ks) ≡ some key
    → rs_to_der rs ≡ some der
    → validate_es256 c (pos now) (some (token hdr pay rs)) (some (k ∷ ks)) ≡ (
        if c.pk_verify key (c.sha256 (encode hdr ++ (46 ∷ encode pay))) der
        then jwt_ok
        else crypto_failed)
unfolding validate_es256 check_structure
validate_es256-token c now e k ks hdr pay rs der key bh bp br lh lp lr alg exp early parsed d =
    let parts =
      split-dotted (encode hdr) (encode pay) (encode rs) (encode-HasNoDot hdr)
        (encode-HasNoDot pay) in
    let checked = check_parts-token now e hdr pay rs bh bp lh lp alg exp early in
    let sig = base64url_decode-encode rs 64 br (omega arith) in
    let input = signing_input (encode hdr) (encode pay) (encode rs) in
    let jwt = token hdr pay rs in
    let ps : JwtParts = record { header = encode hdr; payload = encode pay; sig = encode rs } in
    ap (λ r. finish_es256 c jwt (k ∷ ks) (check_split (pos now) es256 r.1)) parts
    ∙ ap (λ r. and_then r (verify_es256 c jwt ps (k ∷ ks) (base64url_decode (encode rs) 64)))
        checked
    ∙ ap (verify_es256 c jwt ps (k ∷ ks)) sig
    ∙ sized (length rs) lr (verify_der c jwt ps (k ∷ ks) (rs_to_der rs))
    ∙ ap (verify_der c jwt ps (k ∷ ks)) d
    ∙ ap₂ (λ i o. verify_with c (c.sha256 i) der o) input parsed
