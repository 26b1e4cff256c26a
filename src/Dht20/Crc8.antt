-- ===== src/Dht20/Crc8.antt =====
-- The checksum of dsp_dht20.c as a function of one of its bytes.
use dsp_embedded.Prelude.{
  ℕ, zero, suc, ◌+◌, ◌/◌, ◌%◌, ◌<◌, ◌≡◌, ◌≢◌, refl, ap, sym, ◌∙◌, subst, Bool, true, ◌&&◌, &&-true,
  List, [], ◌∷◌, ◌++◌, arith, if◌then◌else◌, ltb, ◌==◌, ==_iff, bit_xor, AllBytes,
}
use native.Mathlib.Decide.{ℕ_discrete}
use dsp_embedded.Prelude.Xor.{bit_xor_injective, bit_xor_comm, bit_xor-lt}
use dsp_embedded.Dht20.{crc8_round, crc8_rounds, crc8_from, dht20_crc8}

-- A test on every number below `n`.
abbrev all_below : ℕ → (ℕ → Bool) → Bool
all_below zero p = true
all_below (suc n) p = p n && all_below n p

all_below-at : (n : ℕ) (p : ℕ → Bool) (x : ℕ) → all_below n p ≡ true → x < n → p x ≡ true
all_below-at zero p x h lt = absurd (omega arith)
all_below-at (suc n) p x h lt = elim (ℕ_discrete x n) [
  | yes e ↦ subst (λ y. p y ≡ true) (sym e) (&&-true (p n) (all_below n p) h).0
  | no ne ↦ all_below-at n p x (&&-true (p n) (all_below n p) h).1 (omega arith)
]

-- The round backwards: its lowest bit tells which way it went.
abbrev unround : ℕ → ℕ
unround r = if r % 2 == 1 then bit_xor r 0x31 / 2 + 128 else r / 2

unround-all : all_below 256 (λ c. (unround (crc8_round c) == c) && ltb (crc8_round c) 256) ≡ true
unfolding crc8_round
unround-all = refl

round-unround : (c : ℕ) → c < 256 → (unround (crc8_round c) ≡ c) × (crc8_round c < 256)
round-unround c h =
    let both = &&-true (unround (crc8_round c) == c) (ltb (crc8_round c) 256) (
      all_below-at 256 (λ c. (unround (crc8_round c) == c) && ltb (crc8_round c) 256) c unround-all
        h) in
    ((==_iff (unround (crc8_round c)) c).0 both.0, ground (arith, both.1))

crc8_rounds-lt : (n c : ℕ) → c < 256 → crc8_rounds n c < 256
unfolding crc8_rounds
crc8_rounds-lt zero c h = h
crc8_rounds-lt (suc n) c h = crc8_rounds-lt n (crc8_round c) (round-unround c h).1

crc8_rounds_injective : (n c d : ℕ) → c < 256 → d < 256 → crc8_rounds n c ≡ crc8_rounds n d → c ≡ d
unfolding crc8_rounds
crc8_rounds_injective zero c d h k e = e
crc8_rounds_injective (suc n) c d h k e =
    let u = round-unround c h in
    let v = round-unround d k in
    let same = crc8_rounds_injective n (crc8_round c) (crc8_round d) u.1 v.1 e in
    sym u.0 ∙ ap unround same ∙ v.0

xor_byte-lt : (c b : ℕ) → c < 256 → b < 256 → bit_xor c b < 256
xor_byte-lt c b h k = bit_xor-lt 8 c b h k

byte-lt : (c b : ℕ) → c < 256 → b < 256 → crc8_rounds 8 (bit_xor c b) < 256
byte-lt c b h k = crc8_rounds-lt 8 (bit_xor c b) (xor_byte-lt c b h k)

-- Different checksums stay different over the same bytes.
crc8_from_injective :
    (bs : List ℕ) (c d : ℕ)
    → c < 256
    → d < 256
    → AllBytes bs
    → crc8_from c bs ≡ crc8_from d bs
    → c ≡ d
unfolding crc8_from
crc8_from_injective [] c d h k a e = e
crc8_from_injective (b ∷ bs) c d h k a e =
    let next = crc8_from_injective bs _ _ (byte-lt c b h a.0) (byte-lt d b k a.0) a.1 e in
    bit_xor_injective c d b (
      crc8_rounds_injective 8 (bit_xor c b) (bit_xor d b) (xor_byte-lt c b h a.0)
        (xor_byte-lt d b k a.0) next)

crc8_from_detects :
    (pre post : List ℕ) (c x y : ℕ)
    → c < 256
    → y < 256
    → AllBytes (pre ++ (x ∷ post))
    → crc8_from c (pre ++ (x ∷ post)) ≡ crc8_from c (pre ++ (y ∷ post))
    → x ≡ y
unfolding crc8_from
crc8_from_detects [] post c x y h hy a e =
    let next = crc8_from_injective post _ _ (byte-lt c x h a.0) (byte-lt c y h hy) a.1 e in
    let xored =
      crc8_rounds_injective 8 (bit_xor c x) (bit_xor c y) (xor_byte-lt c x h a.0)
        (xor_byte-lt c y h hy) next in
    bit_xor_injective x y c (bit_xor_comm x c ∙ xored ∙ bit_xor_comm c y)
crc8_from_detects (b ∷ pre) post c x y h hy a e =
    crc8_from_detects pre post _ x y (byte-lt c b h a.0) hy a.1 e

-- Two blocks of bytes that differ in exactly one byte, wherever it stands, have different checksums.
pub dht20_crc8_detects :
    (pre post : List ℕ) (x y : ℕ)
    → AllBytes (pre ++ (x ∷ post))
    → y < 256
    → x ≢ y
    → dht20_crc8 (pre ++ (x ∷ post)) ≢ dht20_crc8 (pre ++ (y ∷ post))
unfolding dht20_crc8
dht20_crc8_detects pre post x y a hy ne e =
    ne (crc8_from_detects pre post 0xFF x y (omega arith) hy a e)
