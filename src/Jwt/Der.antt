-- ===== src/Jwt/Der.antt =====
-- The DER form of an ECDSA signature against a reader of that form.
use dsp_embedded.Prelude.{
  ℕ, zero, suc, ◌+◌, ◌*◌, ◌≤◌, ◌<◌, ◌≡◌, Bool, true, not, ◌||◌, refl, ap, sym, ◌∙◌, ◌&&◌, Option,
  none, some, List, [], ◌∷◌, ◌++◌, append-nil, arith, if◌then◌else◌, ltb, leb, ◌==◌, length,
  length-append, length-take, length-drop, take, drop, take_of_le, get_or, inl, inr, Bool-cases,
  ◌⊎◌,
}
use dsp_embedded.Jwt.{der_integer, rs_to_der}

-- The number that bytes denote, the highest first.
abbrev pub big_endian : List ℕ → ℕ → ℕ
big_endian [] acc = acc
big_endian (b ∷ bs) acc = big_endian bs (acc * 256 + b)

abbrev pub number : List ℕ → ℕ
number bs = big_endian bs 0

-- The first byte is needed: it is not a zero in front of a byte below 128.
abbrev pub is_minimal : List ℕ → Bool
is_minimal (b ∷ c ∷ bs) = not (b == 0) || leb 128 c
is_minimal _ = true

-- A DER INTEGER that is not negative, and what follows it. The length is in one byte, and there are
-- no more bytes than needed.
abbrev pub read_integer : List ℕ → Option (ℕ × List ℕ)
read_integer (tag ∷ n ∷ rest) =
    if (tag == 2)
      && (ltb n 128
          && (leb 1 n
              && (leb n (length rest) && (ltb (get_or rest 0 0) 128 && is_minimal (take n rest)))))
    then some (number (take n rest), drop n rest)
    else none
read_integer _ = none

abbrev pub read_end : ℕ → Option (ℕ × List ℕ) → Option (ℕ × ℕ)
read_end a none = none
read_end a (some b) = if length b.1 == 0 then some (a, b.0) else none

abbrev pub read_second : Option (ℕ × List ℕ) → Option (ℕ × ℕ)
read_second none = none
read_second (some a) = read_end a.0 (read_integer a.1)

abbrev pub read_two : List ℕ → Option (ℕ × ℕ)
read_two body = read_second (read_integer body)

-- A DER SEQUENCE of two such integers, and nothing behind it.
pub read_signature : List ℕ → Option (ℕ × ℕ)
read_signature (tag ∷ n ∷ body) =
    if (tag == 48) && (ltb n 128 && (n == length body)) then read_two body else none
read_signature _ = none

take-append : (xs ys : List ℕ) (n : ℕ) → length xs ≡ n → take n (xs ++ ys) ≡ xs
take-append [] ys zero e = refl
take-append [] ys (suc n) e = absurd (omega arith)
take-append (x ∷ xs) ys zero e = absurd (omega arith)
take-append (x ∷ xs) ys (suc n) e = ap (◌∷◌ x) (take-append xs ys n (omega arith))

drop-append : (xs ys : List ℕ) (n : ℕ) → length xs ≡ n → drop n (xs ++ ys) ≡ ys
drop-append [] ys zero e = refl
drop-append [] ys (suc n) e = absurd (omega arith)
drop-append (x ∷ xs) ys zero e = absurd (omega arith)
drop-append (x ∷ xs) ys (suc n) e = drop-append xs ys n (omega arith)

get_or-append : (xs ys : List ℕ) → 1 ≤ length xs → get_or (xs ++ ys) 0 0 ≡ get_or xs 0 0
get_or-append [] ys h = absurd (omega arith)
get_or-append (x ∷ xs) ys h = refl

get_or-take : (xs : List ℕ) (n : ℕ) → 1 ≤ n → get_or (take n xs) 0 0 ≡ get_or xs 0 0
get_or-take [] zero h = refl
get_or-take [] (suc n) h = refl
get_or-take (x ∷ xs) zero h = absurd (omega arith)
get_or-take (x ∷ xs) (suc n) h = refl

is_minimal-take : (r : List ℕ) → 32 ≤ length r → is_minimal r ≡ true → is_minimal (take 32 r) ≡ true
is_minimal-take [] h m = refl
is_minimal-take (b ∷ []) h m = absurd (omega (arith, h))
is_minimal-take (b ∷ c ∷ r) h m = m

-- With its high bit set, a number is minimal behind the zero.
is_minimal-padded : (r : List ℕ) → leb 128 (get_or r 0 0) ≡ true → is_minimal (0 ∷ r) ≡ true
is_minimal-padded [] h = refl
is_minimal-padded (b ∷ r) h = h

-- An integer that was written is read back.
read_integer-der :
    (r t : List ℕ)
    → 32 ≤ length r
    → is_minimal r ≡ true
    → read_integer (der_integer r ++ t) ≡ some (number (take 32 r), t)
read_integer-der r t h least =
    let l = length-take 32 r in
    let m = length-append (take 32 r) t in
    let x = get_or-append (take 32 r) t (omega arith) in
    let y = get_or-take r 32 (omega arith) in
    let whole = is_minimal-take r h least in
    elim (Bool-cases (leb 128 (get_or r 0 0))) [
      | inl high ↦ ground (
        arith,
        take-append (0 ∷ take 32 r) t 33 (omega arith),
        drop-append (0 ∷ take 32 r) t 33 (omega arith),
        is_minimal-padded (take 32 r) (ap (leb 128) y ∙ high),
      )
      | inr low ↦ ground (
        arith,
        take-append (take 32 r) t 32 (omega arith),
        drop-append (take 32 r) t 32 (omega arith),
      )
    ]

length-der_integer :
    (r : List ℕ) → 32 ≤ length r → (length (der_integer r) ≡ 34) ⊎ (length (der_integer r) ≡ 35)
length-der_integer r h = ground (arith, length-take 32 r)

read_two-der :
    (r s : List ℕ)
    → 32 ≤ length r
    → 32 ≤ length s
    → is_minimal r ≡ true
    → is_minimal s ≡ true
    → read_two (der_integer r ++ der_integer s) ≡ some (number (take 32 r), number (take 32 s))
read_two-der r s h k least_r least_s =
    let first = read_integer-der r (der_integer s) h least_r in
    let bare = ap read_integer (sym (append-nil (der_integer s))) in
    ap read_second first
    ∙ ap (read_end (number (take 32 r))) (bare ∙ read_integer-der s [] k least_s)

read_signature-sequence :
    (body : List ℕ) → length body < 128 → read_signature (48 ∷ length body ∷ body) ≡ read_two body
unfolding read_signature
read_signature-sequence body h = ground arith

length-body :
    (r s : List ℕ) → 32 ≤ length r → 32 ≤ length s → length (der_integer r ++ der_integer s) < 71
length-body r s h k =
    let a = length-der_integer r h in
    let b = length-der_integer s k in
    let l = length-append (der_integer r) (der_integer s) in
    elim a [
      | inl x ↦ elim b [ inl y ↦ omega (arith, l, x, y) | inr y ↦ omega (arith, l, x, y) ]
      | inr x ↦ elim b [ inl y ↦ omega (arith, l, x, y) | inr y ↦ omega (arith, l, x, y) ]
    ]

rs_to_der-body :
    (rs : List ℕ)
    → length (der_integer rs ++ der_integer (drop 32 rs)) < 71
    → let body = der_integer rs ++ der_integer (drop 32 rs) in
      rs_to_der rs ≡ some (48 ∷ length body ∷ body)
unfolding rs_to_der
rs_to_der-body rs short = sequence (der_integer rs ++ der_integer (drop 32 rs)) short
  where
    sequence :
        (body : List ℕ)
        → length body < 71
        → (if ltb 74 (length body + 2) then none else some (48 ∷ length body ∷ body))
          ≡ some (48 ∷ length body ∷ body)
    sequence body short = ground (arith, short)

-- `rs_to_der` turns 64 bytes, R and S of 32 bytes each, into at most 72 bytes, which read as a DER
-- SEQUENCE of two INTEGERs are R and S, neither of them negative, if neither R nor S begins with a
-- zero byte in front of a byte below 128. (It does not drop such a zero, and DER demands it.)
pub read_signature-rs_to_der :
    (rs : List ℕ)
    → length rs ≡ 64
    → is_minimal rs ≡ true
    → is_minimal (drop 32 rs) ≡ true
    → (der : List ℕ) × (rs_to_der rs ≡ some der)
      × (length der ≤ 72)
      × (read_signature der ≡ some (number (take 32 rs), number (drop 32 rs)))
read_signature-rs_to_der rs h least_r least_s =
    let s = drop 32 rs in
    let body = der_integer rs ++ der_integer s in
    let ls = length-drop 32 rs in
    let whole = take_of_le 32 s (omega arith) in
    let two = read_two-der rs s (omega arith) (omega arith) least_r least_s in
    let short : length body < 71 = length-body rs s (omega arith) (omega arith) in
    (
      48 ∷ length body ∷ body,
      rs_to_der-body rs short,
      omega (arith, short),
      read_signature-sequence body (omega (arith, short))
          ∙ two
          ∙ ap (λ x. some (number (take 32 rs), number x)) whole,
    )
