-- ===== src/Jwt/Exp.antt =====
-- How dsp_jwt.c takes a token and its claims apart.
use dsp_embedded.Prelude.{
  ℕ, zero, suc, ◌+◌, ◌-◌, ◌*◌, ◌%◌, ◌^◌, ◌<◌, ◌≡◌, ◌≢◌, refl, true, false, some, [], ◌∷◌, ◌++◌,
  arith, ◌==◌, Text, Option-cases, inl, inr, Bool-cases,
}
use dsp_embedded.Jwt.{
  jwt_ok, JwtParts, cut_at, split, mem_find, parse_exp, exp_key, skip_spaces, is_digit, read_digits,
  starts_with_digit,
}

-- The text holds no full stop.
abbrev pub HasNoDot : Text → Type 0
HasNoDot [] = Unit {0}
HasNoDot (c ∷ cs) = (c ≢ 46) × HasNoDot cs

cut_at-dot : (h t : Text) → HasNoDot h → cut_at 46 (h ++ (46 ∷ t)) ≡ some (h, t)
cut_at-dot [] t n = refl
cut_at-dot (c ∷ h) t n = ground (arith, cut_at-dot h t n.1)

abbrev pub dotted : Text → Text → Text → Text
dotted h p s = h ++ (46 ∷ p ++ (46 ∷ s))

-- `dsp_jwt_split` undoes the joining of three parts with full stops, if the first two hold none.
pub split-dotted :
    (h p s : Text)
    → HasNoDot h
    → HasNoDot p
    → split (some (dotted h p s)) ≡ (jwt_ok, some (record { header = h; payload = p; sig = s }))
unfolding split
split-dotted h p s nh np = ground (arith, cut_at-dot h (p ++ (46 ∷ s)) nh, cut_at-dot p s np)

cut_at-some :
    (jwt : Text) (r : Text × Text)
    → cut_at 46 jwt ≡ some r
    → (jwt ≡ r.0 ++ (46 ∷ r.1)) × HasNoDot r.0
cut_at-some [] r e = absurd (cc)
cut_at-some (c ∷ cs) r e = elim (Bool-cases (c == 46)) [
  | inl dot ↦ ground arith
  | inr other ↦ elim (Option-cases (cut_at 46 cs)) [
    | inl n ↦ absurd (ground arith)
    | inr (q, f) ↦ let ih = cut_at-some cs q f in ground arith
  ]
]

-- Where `dsp_jwt_split` succeeds, the token is its three parts joined with full stops, and the first
-- two parts hold none.
pub split_sound :
    (jwt : Text) (parts : JwtParts)
    → (split (some jwt)).1 ≡ some parts
    → (jwt ≡ dotted parts.header parts.payload parts.sig)
      × HasNoDot parts.header
      × HasNoDot parts.payload
unfolding split
split_sound jwt parts e = elim (Option-cases (cut_at 46 jwt)) [
  | inl n ↦ absurd (ground arith)
  | inr (a, f) ↦ elim (Option-cases (cut_at 46 a.1)) [
    | inl n ↦ absurd (ground arith)
    | inr (b, g) ↦
        let u = cut_at-some jwt a f in
        let v = cut_at-some a.1 b g in
        let w : parts ≡ record { header = a.0; payload = b.0; sig = b.1 } = ground arith in
        ground arith
  ]
]

-- The number that digits denote, without a bound.
abbrev pub value : Text → ℕ → ℕ
value [] acc = acc
value (d ∷ ds) acc = value ds (acc * 10 + (d - 48))

abbrev pub AllDigits : Text → Type 0
AllDigits [] = Unit {0}
AllDigits (d ∷ ds) = (is_digit d ≡ true) × AllDigits ds

-- What stands behind the digits does not go on with one.
abbrev pub EndsHere : Text → Type 0
EndsHere t = starts_with_digit t ≡ false

value_mod :
    (ds : Text) (a b : ℕ) → a % 2 ^ 64 ≡ b % 2 ^ 64 → value ds a % 2 ^ 64 ≡ value ds b % 2 ^ 64
value_mod [] a b e = e
value_mod (d ∷ ds) a b e = value_mod ds (a * 10 + (d - 48)) (b * 10 + (d - 48)) (omega arith)

read_digits-value :
    (ds rest : Text) (acc : ℕ)
    → AllDigits ds
    → EndsHere rest
    → acc < 2 ^ 64
    → read_digits (ds ++ rest) acc ≡ value ds acc % 2 ^ 64
read_digits-value [] [] acc a h lt = omega arith
read_digits-value [] (c ∷ cs) acc a h lt = ground arith
read_digits-value (d ∷ ds) rest acc a h lt =
    let next = (acc * 10 + (d - 48)) % 2 ^ 64 in
    let ih = read_digits-value ds rest next a.1 h (omega arith) in
    let same = value_mod ds next (acc * 10 + (d - 48)) (omega arith) in
    ground (arith, a.0, ih, same)

abbrev pub spaces : ℕ → Text
spaces zero = []
spaces (suc n) = 32 ∷ spaces n

skip_spaces-spaces :
    (n d : ℕ) (t : Text) → is_digit d ≡ true → skip_spaces (spaces n ++ (d ∷ t)) ≡ d ∷ t
skip_spaces-spaces zero d t h = ground arith
skip_spaces-spaces (suc n) d t h = skip_spaces-spaces n d t h

-- Where `"exp":` first occurs, then any number of spaces and a digit, `dsp_jwt_parse_exp` gives the
-- number that the digits from there on denote, modulo 2^64.
pub parse_exp-value :
    (json : Text) (n d : ℕ) (ds rest : Text)
    → mem_find json exp_key ≡ some (exp_key ++ (spaces n ++ ((d ∷ ds) ++ rest)))
    → AllDigits (d ∷ ds)
    → EndsHere rest
    → parse_exp (some json) ≡ (jwt_ok, value (d ∷ ds) 0 % 2 ^ 64)
unfolding parse_exp
parse_exp-value json n d ds rest found digits ends =
    let skipped = skip_spaces-spaces n d (ds ++ rest) digits.0 in
    let read = read_digits-value (d ∷ ds) rest 0 digits ends (omega arith) in
    rw (found, parse_exp, skipped) (ground (arith, digits.0, read))
