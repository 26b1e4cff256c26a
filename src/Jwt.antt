-- ===== src/Jwt.antt =====
-- components/dsp_jwt/dsp_jwt.c and include/dsp_jwt.h: JSON Web Tokens. A pointer into a string with a
-- length is the text there; a buffer and the number of bytes written to it are the list of these
-- bytes, and a result of -1 is `none`. In the shifts of the decoder the operands of `|` have no bit
-- in common, so it is written as a sum. mbedTLS and the clock are parameters.
use dsp_embedded.Prelude.{
  ℕ, zero, suc, ◌+◌, ◌-◌, ◌*◌, ◌/◌, ◌%◌, ◌^◌, Bool, true, false, not, ◌&&◌, ◌||◌, Option, none,
  some, List, [], ◌∷◌, ◌++◌, if◌then◌else◌, ltb, leb, ◌==◌, length, take, drop, get_or, Text, ℤ,
  pos, negsuc, codes,
}
use mathlib.Core.Option
pub mod Base64
pub mod Exp
pub mod Der
pub mod Accept
pub mod Sound
mod Tests

-- `dsp_jwt_err_t`.
pub data JwtErr : Type 0 where
  jwt_ok invalid_arg invalid_format invalid_alg expired no_exp decode_failed crypto_failed : JwtErr

-- `dsp_jwt_alg_t`.
pub data JwtAlg : Type 0 where
  unknown es256 rs256 : JwtAlg

-- `dsp_jwt_parts_t`.
pub record JwtParts : Type 0 where
  pub header : Text
  pub payload : Text
  pub sig : Text

-- A byte above 127 is a negative `char`, which is outside of every range as well.
abbrev pub b64url_char_to_val : ℕ → Option ℕ
b64url_char_to_val c =
    if leb 65 c && leb c 90
    then some (c - 65)
    else if leb 97 c && leb c 122
    then some (c - 97 + 26)
    else if leb 48 c && leb c 57
    then some (c - 48 + 52)
    else if c == 45
    then some 62
    else if c == 95
    then some 63
    else none

-- `memcmp(hay, needle, ndl_len) == 0`, and false where less than the needle is left.
abbrev pub starts_with : Text → Text → Bool
starts_with [] hay = true
starts_with (n ∷ ns) [] = false
starts_with (n ∷ ns) (h ∷ hs) = (n == h) && starts_with ns hs

-- The text from the first occurrence on.
pub mem_find : Text → Text → Option Text
mem_find [] ndl = if starts_with ndl [] then some [] else none
mem_find (h ∷ hs) ndl = if starts_with ndl (h ∷ hs) then some (h ∷ hs) else mem_find hs ndl

-- `strchr(s, c)`: the texts before and behind the first `c`.
abbrev pub cut_at : ℕ → Text → Option (Text × Text)
cut_at c [] = none
cut_at c (x ∷ xs) =
    if x == c
    then some ([], xs)
    else elim (cut_at c xs) [ none ↦ none | some p ↦ some (x ∷ p.0, p.1) ]

-- `dsp_jwt_split` with an output that is not NULL; `.` is 46.
pub split : Option Text → JwtErr × Option JwtParts
split none = (invalid_arg, none)
split (some jwt) = elim (cut_at 46 jwt) [
  | none ↦ (invalid_format, none)
  | some a ↦ elim (cut_at 46 a.1) [
    | none ↦ (invalid_format, none)
    | some b ↦ (jwt_ok, some (record { header = a.0; payload = b.0; sig = b.1 }))
  ]
]

-- The bytes of a group of four, three and two characters.
abbrev pub group_of_4 : Option ℕ → Option ℕ → Option ℕ → Option ℕ → Option (List ℕ)
group_of_4 (some v0) (some v1) (some v2) (some v3) =
    some ((v0 * 4 + v1 / 16) % 256 ∷ (v1 * 16 + v2 / 4) % 256 ∷ (v2 * 64 + v3) % 256 ∷ [])
group_of_4 _ _ _ _ = none

abbrev pub group_of_3 : Option ℕ → Option ℕ → Option ℕ → Option (List ℕ)
group_of_3 (some v0) (some v1) (some v2) =
    some ((v0 * 4 + v1 / 16) % 256 ∷ (v1 * 16 + v2 / 4) % 256 ∷ [])
group_of_3 _ _ _ = none

abbrev pub group_of_2 : Option ℕ → Option ℕ → Option (List ℕ)
group_of_2 (some v0) (some v1) = some ((v0 * 4 + v1 / 16) % 256 ∷ [])
group_of_2 _ _ = none

-- A group is written if it decodes and `room` bytes are enough for it.
abbrev pub fitted : Option (List ℕ) → ℕ → Option (List ℕ)
fitted none room = none
fitted (some out) room = if ltb room (length out) then none else some out

-- What is written for the first group and for the rest.
abbrev pub joined : Option (List ℕ) → Option (List ℕ) → Option (List ℕ)
joined (some a) (some b) = some (a ++ b)
joined _ _ = none

-- The result of `dsp_jwt_base64url_decode` with pointers that are not NULL, the second argument being
-- the room that is left in the output: the bytes that it counts, or none for -1.
pub base64url_decode : Text → ℕ → Option (List ℕ)
base64url_decode [] room = some []
base64url_decode (a ∷ []) room = none
base64url_decode (a ∷ b ∷ []) room =
    fitted (group_of_2 (b64url_char_to_val a) (b64url_char_to_val b)) room
base64url_decode (a ∷ b ∷ c ∷ []) room =
    fitted (group_of_3 (b64url_char_to_val a) (b64url_char_to_val b) (b64url_char_to_val c)) room
base64url_decode (a ∷ b ∷ c ∷ d ∷ src) room =
    joined
      (fitted
        (group_of_4 (b64url_char_to_val a) (b64url_char_to_val b) (b64url_char_to_val c)
          (b64url_char_to_val d))
        room)
      (base64url_decode src (room - 3))

-- What `dsp_jwt_base64url_decode` has written to the output when it returns, on an error too: the
-- groups in front of the one that fails.
abbrev pub written : Option (List ℕ) → List ℕ
written none = []
written (some out) = out

abbrev pub written_before : Option (List ℕ) → List ℕ → List ℕ
written_before none rest = []
written_before (some out) rest = out ++ rest

pub base64url_written : Text → ℕ → List ℕ
base64url_written [] room = []
base64url_written (a ∷ []) room = []
base64url_written (a ∷ b ∷ []) room =
    written (fitted (group_of_2 (b64url_char_to_val a) (b64url_char_to_val b)) room)
base64url_written (a ∷ b ∷ c ∷ []) room =
    written (
      fitted (group_of_3 (b64url_char_to_val a) (b64url_char_to_val b) (b64url_char_to_val c)) room)
base64url_written (a ∷ b ∷ c ∷ d ∷ src) room =
    written_before
      (fitted
        (group_of_4 (b64url_char_to_val a) (b64url_char_to_val b) (b64url_char_to_val c)
          (b64url_char_to_val d))
        room)
      (base64url_written src (room - 3))

-- The strings `"ES256"`, `"RS256"` and `"exp":`, quotes included.
abbrev pub quoted_es256 : Text
quoted_es256 = 34 ∷ 69 ∷ 83 ∷ 50 ∷ 53 ∷ 54 ∷ 34 ∷ []

abbrev pub quoted_rs256 : Text
quoted_rs256 = 34 ∷ 82 ∷ 83 ∷ 50 ∷ 53 ∷ 54 ∷ 34 ∷ []

abbrev pub exp_key : Text
exp_key = 34 ∷ 101 ∷ 120 ∷ 112 ∷ 34 ∷ 58 ∷ []

pub parse_alg : Option Text → JwtAlg
parse_alg none = unknown
parse_alg (some json) = elim (mem_find json quoted_es256) [
  | some p ↦ es256
  | none ↦ elim (mem_find json quoted_rs256) [ some p ↦ rs256 | none ↦ unknown ]
]

abbrev pub skip_spaces : Text → Text
skip_spaces [] = []
skip_spaces (c ∷ cs) = if c == 32 then skip_spaces cs else c ∷ cs

abbrev pub is_digit : ℕ → Bool
is_digit c = leb 48 c && leb c 57

-- The digit loop, in `uint64_t`.
abbrev pub read_digits : Text → ℕ → ℕ
read_digits [] val = val
read_digits (c ∷ cs) val =
    if is_digit c then read_digits cs ((val * 10 + (c - 48)) % 2 ^ 64) else val

abbrev pub starts_with_digit : Text → Bool
starts_with_digit [] = false
starts_with_digit (c ∷ cs) = is_digit c

-- `dsp_jwt_parse_exp` with an output that is not NULL; the number is what the output holds.
pub parse_exp : Option Text → JwtErr × ℕ
parse_exp none = (invalid_arg, 0)
parse_exp (some json) = elim (mem_find json exp_key) [
  | none ↦ (no_exp, 0)
  | some p ↦
      let rest = skip_spaces (drop (length exp_key) p) in
      if starts_with_digit rest then (jwt_ok, read_digits rest 0) else (no_exp, 0)
]

-- `DSP_JWT_MAX_DECODE_B`.
abbrev pub max_decode : ℕ
max_decode = 512

abbrev pub alg_eq : JwtAlg → JwtAlg → Bool
alg_eq unknown unknown = true
alg_eq es256 es256 = true
alg_eq rs256 rs256 = true
alg_eq _ _ = false

-- The clock, `time(NULL)`, is at the expiry or behind it, or in error.
abbrev pub is_late : ℤ → ℕ → Bool
is_late (negsuc n) exp = true
is_late (pos now) exp = leb exp now

abbrev pub check_expiry : ℤ → JwtErr × ℕ → JwtErr
check_expiry now (jwt_ok, exp) = if is_late now exp then expired else jwt_ok
check_expiry now (err, exp) = err

abbrev pub check_payload : ℤ → Option (List ℕ) → JwtErr
check_payload now none = decode_failed
check_payload now (some pay) = check_expiry now (parse_exp (some pay))

abbrev pub check_header : JwtAlg → Option (List ℕ) → JwtErr
check_header expected none = decode_failed
check_header expected (some hdr) =
    if alg_eq (parse_alg (some hdr)) expected then jwt_ok else invalid_alg

-- The next check, if the first one passed.
abbrev pub and_then : JwtErr → JwtErr → JwtErr
and_then jwt_ok next = next
and_then err next = err

abbrev pub check_parts : ℤ → JwtAlg → JwtParts → JwtErr
check_parts now expected parts =
    and_then (check_header expected (base64url_decode parts.header 128))
      (check_payload now (base64url_decode parts.payload max_decode))

abbrev pub check_split : ℤ → JwtAlg → Option JwtParts → JwtErr × Option JwtParts
check_split now expected none = (invalid_format, none)
check_split now expected (some parts) = (check_parts now expected parts, some parts)

-- `jwt_check_structure`; a public key of length 0 is the empty list.
pub check_structure : ℤ → Option Text → Option (List ℕ) → JwtAlg → JwtErr × Option JwtParts
check_structure now none pubkey_der expected = (invalid_arg, none)
check_structure now (some jwt) none expected = (invalid_arg, none)
check_structure now (some jwt) (some []) expected = (invalid_arg, none)
check_structure now (some jwt) (some (k ∷ ks)) expected =
    check_split now expected (split (some jwt)).1

-- The mbedTLS calls, for a type of parsed keys.
pub record Crypto : Type 1 where
  pub Key : Type 0
  pub sha256 : List ℕ → List ℕ
  pub parse_public_key : List ℕ → Option Key
  pub pk_verify : Key → List ℕ → List ℕ → Bool

-- A DER INTEGER of 32 bytes, with a zero in front where the high bit is set.
abbrev pub der_integer : List ℕ → List ℕ
der_integer r = if leb 128 (get_or r 0 0) then 2 ∷ 33 ∷ 0 ∷ take 32 r else 2 ∷ 32 ∷ take 32 r

-- `rs_to_der` on the 64 bytes of a raw signature.
pub rs_to_der : List ℕ → Option (List ℕ)
rs_to_der rs =
    let body = der_integer rs ++ der_integer (drop 32 rs) in
    if ltb 74 (length body + 2) then none else some (48 ∷ length body ∷ body)

-- What `dsp_jwt_validate_es256` and `dsp_jwt_validate_rs256` have in common: the key is parsed, and
-- the signature verified over the hash of the signing input.
abbrev pub verify_with : (c : Crypto) → List ℕ → List ℕ → Option c.Key → JwtErr
verify_with c digest sig none = crypto_failed
verify_with c digest sig (some pk) = if c.pk_verify pk digest sig then jwt_ok else crypto_failed

abbrev pub verify_signature : (c : Crypto) → Text → JwtParts → List ℕ → List ℕ → JwtErr
verify_signature c jwt parts pubkey_der sig =
    let signing_len = length parts.header + 1 + length parts.payload in
    verify_with c (c.sha256 (take signing_len jwt)) sig (c.parse_public_key pubkey_der)

abbrev pub verify_der : (c : Crypto) → Text → JwtParts → List ℕ → Option (List ℕ) → JwtErr
verify_der c jwt parts pubkey_der none = crypto_failed
verify_der c jwt parts pubkey_der (some sig_der) = verify_signature c jwt parts pubkey_der sig_der

abbrev pub verify_es256 : (c : Crypto) → Text → JwtParts → List ℕ → Option (List ℕ) → JwtErr
verify_es256 c jwt parts pubkey_der none = invalid_format
verify_es256 c jwt parts pubkey_der (some sig_raw) =
    if not (length sig_raw == 64)
    then invalid_format
    else verify_der c jwt parts pubkey_der (rs_to_der sig_raw)

abbrev pub verify_rs256 : (c : Crypto) → Text → JwtParts → List ℕ → Option (List ℕ) → JwtErr
verify_rs256 c jwt parts pubkey_der none = invalid_format
verify_rs256 c jwt parts pubkey_der (some []) = invalid_format
verify_rs256 c jwt parts pubkey_der (some (b ∷ bs)) =
    verify_signature c jwt parts pubkey_der (b ∷ bs)

-- After the structural check, which returns the parts where it succeeds.
abbrev pub finish_es256 : (c : Crypto) → Text → List ℕ → JwtErr × Option JwtParts → JwtErr
finish_es256 c jwt pubkey_der (err, none) = err
finish_es256 c jwt pubkey_der (err, some p) =
    and_then err (verify_es256 c jwt p pubkey_der (base64url_decode p.sig 64))

abbrev pub finish_rs256 : (c : Crypto) → Text → List ℕ → JwtErr × Option JwtParts → JwtErr
finish_rs256 c jwt pubkey_der (err, none) = err
finish_rs256 c jwt pubkey_der (err, some p) =
    and_then err (verify_rs256 c jwt p pubkey_der (base64url_decode p.sig 512))

-- The text or the key, where the pointer is not NULL; the structural check has returned otherwise.
abbrev pub bytes_of : Option (List ℕ) → List ℕ
bytes_of none = []
bytes_of (some t) = t

pub validate_es256 : (c : Crypto) → ℤ → Option Text → Option (List ℕ) → JwtErr
validate_es256 c now jwt pubkey_der =
    finish_es256 c (bytes_of jwt) (bytes_of pubkey_der) (check_structure now jwt pubkey_der es256)

unfoldable validate_rs256 : (c : Crypto) → ℤ → Option Text → Option (List ℕ) → JwtErr
validate_rs256 c now jwt pubkey_der =
    finish_rs256 c (bytes_of jwt) (bytes_of pubkey_der) (check_structure now jwt pubkey_der rs256)
