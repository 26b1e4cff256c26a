-- ===== src/Rtc/Crc.antt =====
-- The CRC of the image as a function of its bytes, and of one byte of them.
use dsp_embedded.Prelude.{
  AllBytes, ℕ, zero, suc, ◌/◌, ◌%◌, ◌^◌, ◌≤◌, ◌<◌, ◌≡◌, ◌≢◌, refl, ap, sym, ◌∙◌, List, [], ◌∷◌,
  ◌++◌, arith, bit_xor, ◌⊎◌, inl, inr,
}
use dsp_embedded.Prelude.Xor.{bit_xor_injective, bit_xor_comm, bit_xor-lt, bit_xor-top}
use dsp_embedded.Prelude.And.{bit_and-one}
use dsp_embedded.Rtc.{crc_round, crc_rounds, crc32_update, image_crc}

abbrev poly : ℕ
poly = 0xEDB88320

crc_round-even : (c : ℕ) → c % 2 ≡ 0 → crc_round c ≡ c / 2
unfolding crc_round
crc_round-even c h = ground (arith, bit_and-one c)

crc_round-odd : (c : ℕ) → c % 2 ≡ 1 → crc_round c ≡ bit_xor (c / 2) poly
unfolding crc_round
crc_round-odd c h = ground (arith, bit_and-one c)

parity : (c : ℕ) → (c % 2 ≡ 0) ⊎ (c % 2 ≡ 1)
parity c = omega arith

crc_round-lt : (c : ℕ) → c < 2 ^ 32 → crc_round c < 2 ^ 32
crc_round-lt c h = elim (parity c) [
  | inl e ↦ omega (arith, crc_round-even c e)
  | inr e ↦ omega (arith, crc_round-odd c e, bit_xor-lt 32 (c / 2) poly (omega arith) (omega arith))
]

-- The top bit of a round's result tells whether the word was odd.
odd-top : (c : ℕ) → c < 2 ^ 32 → 2 ^ 31 ≤ bit_xor (c / 2) poly
odd-top c h = bit_xor-top 31 (c / 2) 0x6DB88320 (omega arith) (omega arith)

crc_round_injective : (c d : ℕ) → c < 2 ^ 32 → d < 2 ^ 32 → crc_round c ≡ crc_round d → c ≡ d
crc_round_injective c d hc hd e = elim (parity c) [
  | inl ce ↦ elim (parity d) [
    | inl de ↦ omega (arith, crc_round-even c ce, crc_round-even d de)
    | inr do_ ↦ absurd (omega (arith, crc_round-even c ce, crc_round-odd d do_, odd-top d hd))
  ]
  | inr co ↦ elim (parity d) [
    | inl de ↦ absurd (omega (arith, crc_round-odd c co, crc_round-even d de, odd-top c hc))
    | inr do_ ↦ omega (
      arith,
      bit_xor_injective (c / 2) (d / 2) poly
          (omega (arith, crc_round-odd c co, crc_round-odd d do_)),
    )
  ]
]

crc_rounds-lt : (n c : ℕ) → c < 2 ^ 32 → crc_rounds n c < 2 ^ 32
unfolding crc_rounds
crc_rounds-lt zero c h = h
crc_rounds-lt (suc n) c h = crc_rounds-lt n (crc_round c) (crc_round-lt c h)

crc_rounds_injective :
    (n c d : ℕ) → c < 2 ^ 32 → d < 2 ^ 32 → crc_rounds n c ≡ crc_rounds n d → c ≡ d
unfolding crc_rounds
crc_rounds_injective zero c d hc hd e = e
crc_rounds_injective (suc n) c d hc hd e =
    crc_round_injective c d hc hd
      (crc_rounds_injective n (crc_round c) (crc_round d) (crc_round-lt c hc) (crc_round-lt d hd) e)

-- One byte of the image, taken into the checksum.
abbrev byte_step : ℕ → ℕ → ℕ
byte_step c b = crc_rounds 8 (bit_xor c b)

xor_byte-lt : (c b : ℕ) → c < 2 ^ 32 → b < 256 → bit_xor c b < 2 ^ 32
xor_byte-lt c b hc hb = bit_xor-lt 32 c b hc (omega arith)

byte_step-lt : (c b : ℕ) → c < 2 ^ 32 → b < 256 → byte_step c b < 2 ^ 32
byte_step-lt c b hc hb = crc_rounds-lt 8 (bit_xor c b) (xor_byte-lt c b hc hb)

crc32_update-lt : (bs : List ℕ) (c : ℕ) → c < 2 ^ 32 → AllBytes bs → crc32_update c bs < 2 ^ 32
unfolding crc32_update
crc32_update-lt [] c h a = h
crc32_update-lt (b ∷ bs) c h a = crc32_update-lt bs (byte_step c b) (byte_step-lt c b h a.0) a.1

-- Different checksums stay different over the same bytes.
crc32_update_injective :
    (bs : List ℕ) (c d : ℕ)
    → c < 2 ^ 32
    → d < 2 ^ 32
    → AllBytes bs
    → crc32_update c bs ≡ crc32_update d bs
    → c ≡ d
unfolding crc32_update
crc32_update_injective [] c d hc hd a e = e
crc32_update_injective (b ∷ bs) c d hc hd a e =
    let next =
      crc32_update_injective bs (byte_step c b) (byte_step d b) (byte_step-lt c b hc a.0)
        (byte_step-lt d b hd a.0) a.1 e in
    bit_xor_injective c d b (
      crc_rounds_injective 8 (bit_xor c b) (bit_xor d b) (xor_byte-lt c b hc a.0)
        (xor_byte-lt d b hd a.0) next)

-- The checksum tells apart two byte sequences that differ in one place.
update_detects :
    (pre post : List ℕ) (x y c : ℕ)
    → c < 2 ^ 32
    → AllBytes (pre ++ (x ∷ post))
    → y < 256
    → crc32_update c (pre ++ (x ∷ post)) ≡ crc32_update c (pre ++ (y ∷ post))
    → x ≡ y
unfolding crc32_update
update_detects [] post x y c hc a hy e =
    let next =
      crc32_update_injective post (byte_step c x) (byte_step c y) (byte_step-lt c x hc a.0)
        (byte_step-lt c y hc hy) a.1 e in
    let xored =
      crc_rounds_injective 8 (bit_xor c x) (bit_xor c y) (xor_byte-lt c x hc a.0)
        (xor_byte-lt c y hc hy) next in
    bit_xor_injective x y c (bit_xor_comm x c ∙ xored ∙ bit_xor_comm c y)
update_detects (b ∷ pre) post x y c hc a hy e =
    update_detects pre post x y (byte_step c b) (byte_step-lt c b hc a.0) a.1 hy e

crc32_update-append :
    (xs ys : List ℕ) (c : ℕ) → crc32_update (crc32_update c xs) ys ≡ crc32_update c (xs ++ ys)
unfolding crc32_update
crc32_update-append [] ys c = refl
crc32_update-append (x ∷ xs) ys c = crc32_update-append xs ys (byte_step c x)

-- Two images of the slot arrays that differ in exactly one byte have different checksums, wherever
-- that byte stands.
pub image_crc_detects :
    (neg xfer neg' xfer' pre post : List ℕ) (x y : ℕ)
    → neg ++ xfer ≡ pre ++ (x ∷ post)
    → neg' ++ xfer' ≡ pre ++ (y ∷ post)
    → AllBytes (pre ++ (x ∷ post))
    → y < 256
    → x ≢ y
    → image_crc neg xfer ≢ image_crc neg' xfer'
unfolding image_crc
image_crc_detects neg xfer neg' xfer' pre post x y e e' a hy ne same =
    let inner = bit_xor_injective _ _ 0xFFFFFFFF same in
    ne (
      update_detects pre post x y 0xFFFFFFFF (omega arith) a hy (
        ap (crc32_update 0xFFFFFFFF) (sym e)
        ∙ sym (crc32_update-append neg xfer 0xFFFFFFFF)
        ∙ inner
        ∙ crc32_update-append neg' xfer' 0xFFFFFFFF
        ∙ ap (crc32_update 0xFFFFFFFF) e'))
