-- ===== src/Jwt/Tests.antt =====
-- dsp_jwt at concrete inputs.
use dsp_embedded.Prelude.{
  ℕ, suc, zero, ◌*◌, ◌≤◌, ◌<◌, ◌≡◌, ◌%◌, ◌^◌, refl, true, Bool, some, List, [], ◌∷◌, ◌++◌, arith,
  if◌then◌else◌, length, take, drop, replicate, Text, AllBytes, pos, none, ◌⊎◌, subst, append-nil,
}
use dsp_embedded.Jwt.{
  jwt_ok, crypto_failed, es256, JwtParts, split, mem_find, base64url_decode, base64url_written,
  parse_alg, parse_exp, exp_key, Crypto, rs_to_der, validate_es256, quoted_es256,
}
use dsp_embedded.Jwt.Base64.{encode, base64url_decode-encode, base64url_decode_bounded}
use dsp_embedded.Jwt.Exp.{value, spaces, parse_exp-value}
use dsp_embedded.Jwt.Der.{number, read_signature, read_signature-rs_to_der}
use dsp_embedded.Jwt.Accept.{token, validate_es256-token}
use dsp_embedded.Jwt.Sound.{Accepted, validate_es256-Accepted}

base64url_decode-encode_example :
    base64url_decode (encode (255 ∷ 0 ∷ 128 ∷ 7 ∷ [])) 4 ≡ some (255 ∷ 0 ∷ 128 ∷ 7 ∷ [])
base64url_decode-encode_example =
    base64url_decode-encode (255 ∷ 0 ∷ 128 ∷ 7 ∷ []) 4
      (omega arith, (omega arith, (omega arith, (omega arith, tt)))) (omega arith)

-- A group that is decoded, and one that is not.
abbrev broken : Text
broken = 84 ∷ 87 ∷ 69 ∷ 66 ∷ 42 ∷ 87 ∷ []

test_written : base64url_written broken 4 ≡ 77 ∷ 97 ∷ 1 ∷ []
unfolding base64url_written
test_written = refl

base64url_decode_bounded_example :
    (length (base64url_written broken 4) ≤ 4)
    × (length (base64url_written broken 4) * 4 ≤ length broken * 3)
    × ((base64url_decode broken 4 ≡ none)
        ⊎ (base64url_decode broken 4 ≡ some (base64url_written broken 4)))
base64url_decode_bounded_example = base64url_decode_bounded broken 4

abbrev abc : JwtParts
abc = record { header = 65 ∷ []; payload = 66 ∷ []; sig = 67 ∷ [] }

abc-split : (split (some (65 ∷ 46 ∷ 66 ∷ 46 ∷ 67 ∷ []))).1 ≡ some abc
unfolding split
abc-split = refl

-- `{"exp": 42}`.
abbrev claims : Text
claims = 123 ∷ exp_key ++ (32 ∷ 52 ∷ 50 ∷ 125 ∷ [])

claims-mem_find :
    mem_find claims exp_key ≡ some (exp_key ++ (spaces 1 ++ ((52 ∷ 50 ∷ []) ++ (125 ∷ []))))
unfolding mem_find
claims-mem_find = refl

parse_exp-value_example : parse_exp (some claims) ≡ (jwt_ok, value (52 ∷ 50 ∷ []) 0 % 2 ^ 64)
parse_exp-value_example =
    parse_exp-value claims 1 52 (50 ∷ []) (125 ∷ []) claims-mem_find (refl, (refl, tt)) refl

-- A raw signature with the high bit of R set.
abbrev raw : List ℕ
raw = replicate 33 200 ++ replicate 31 7

read_signature-rs_to_der_example :
    (der : List ℕ) × (rs_to_der raw ≡ some der)
    × (length der ≤ 72)
    × (read_signature der ≡ some (number (take 32 raw), number (drop 32 raw)))
read_signature-rs_to_der_example = read_signature-rs_to_der raw refl refl refl

-- A library whose one key verifies everything.
abbrev lenient : Crypto
lenient = record {
  Key = Bool;
  sha256 = λ bytes. bytes;
  parse_public_key = λ der. some true;
  pk_verify = λ key digest sig. key;
}

abbrev hdr : List ℕ
hdr = quoted_es256

abbrev der : List ℕ
der = 48 ∷ 70 ∷ 2 ∷ 33 ∷ 0 ∷ replicate 32 200 ++ (2 ∷ 33 ∷ 0 ∷ 200 ∷ replicate 31 7)

raw-der : rs_to_der raw ≡ some der
unfolding rs_to_der
raw-der = refl

hdr-alg : parse_alg (some hdr) ≡ es256
unfolding parse_alg mem_find
hdr-alg = refl

claims-exp : parse_exp (some claims) ≡ (jwt_ok, 42)
unfolding parse_exp mem_find
claims-exp = refl

AllBytes-replicate :
    (n b : ℕ) (bs : List ℕ) → b < 256 → AllBytes bs → AllBytes (replicate n b ++ bs)
AllBytes-replicate zero b bs h a = a
AllBytes-replicate (suc n) b bs h a = (h, AllBytes-replicate n b bs h a)

raw-AllBytes : AllBytes raw
raw-AllBytes =
    AllBytes-replicate 33 200 (replicate 31 7) (omega arith)
      (subst AllBytes (append-nil (replicate 31 7)) (AllBytes-replicate 31 7 [] (omega arith) tt))

hdr-AllBytes : AllBytes hdr
hdr-AllBytes = ground arith

claims-AllBytes : AllBytes claims
claims-AllBytes = ground arith

validate_es256-token_example :
    validate_es256 lenient (pos 41) (some (token hdr claims raw)) (some (1 ∷ [])) ≡ (
      if lenient.pk_verify true (lenient.sha256 (encode hdr ++ (46 ∷ encode claims))) der
      then jwt_ok
      else crypto_failed)
validate_es256-token_example =
    validate_es256-token lenient 41 42 1 [] hdr claims raw der true hdr-AllBytes claims-AllBytes
      raw-AllBytes (omega arith) (omega arith) refl hdr-alg claims-exp (omega arith) refl raw-der

accepted : validate_es256 lenient (pos 41) (some (token hdr claims raw)) (some (1 ∷ [])) ≡ jwt_ok
accepted = validate_es256-token_example

validate_es256-Accepted_example : Accepted lenient (pos 41) (token hdr claims raw) (1 ∷ [])
validate_es256-Accepted_example =
    validate_es256-Accepted lenient (pos 41) (token hdr claims raw) 1 [] accepted
