-- ===== src/Prelude/Xor.antt =====
-- Exclusive or at variables: the native operation stands for a recursion on binary digits, from which
-- the laws that a checksum needs follow.
use Prim.Native.Nat.{
  ℕ, zero, suc, ◌+◌, ◌*◌, ◌/◌, ◌%◌, ◌^◌, ◌≤◌, ◌<◌, bit_xor, digits, bit_xor-bitwise, differ,
}
use mathlib.Core.Path.{◌≡◌, refl, sym, ap, ◌∙◌}
use mathlib.Core.Logic.{◌≢◌}
use native.Mathlib.Nat.{pow-suc}
use native.Mathlib.Omega.{arith}

abbrev xor_digits : ℕ → ℕ → ℕ → ℕ
xor_digits n a b = digits (λ b. b) differ n a b

xor_digits_fuel : (n m a b : ℕ) → a ≤ n → a ≤ m → xor_digits n a b ≡ xor_digits m a b
xor_digits_fuel zero zero a b p q = refl
xor_digits_fuel zero (suc m) zero b p q = refl
xor_digits_fuel zero (suc m) (suc a) b p q = absurd (omega arith)
xor_digits_fuel (suc n) zero zero b p q = refl
xor_digits_fuel (suc n) zero (suc a) b p q = absurd (omega arith)
xor_digits_fuel (suc n) (suc m) zero b p q = refl
xor_digits_fuel (suc n) (suc m) (suc a) b p q =
    rw (xor_digits_fuel n m (suc a / 2) (b / 2) (omega arith) (omega arith))

-- The digits of two bits that differ.
differ_lem : (x y : ℕ) → x < 2 → y < 2 → differ x y ≡ (x + y) % 2
differ_lem zero y p q = omega arith
differ_lem (suc zero) zero p q = omega arith
differ_lem (suc zero) (suc zero) p q = omega arith
differ_lem (suc zero) (suc (suc y)) p q = absurd (omega arith)
differ_lem (suc (suc x)) y p q = absurd (omega arith)

zero-bit_xor : (b : ℕ) → bit_xor 0 b ≡ b
zero-bit_xor b = bit_xor-bitwise 0 b

pub bit_xor_step : (a b : ℕ) → bit_xor a b ≡ bit_xor (a / 2) (b / 2) * 2 + (a % 2 + b % 2) % 2
bit_xor_step zero b = omega (arith, zero-bit_xor b, zero-bit_xor (b / 2))
bit_xor_step (suc a) b = omega (
  arith,
  bit_xor-bitwise (suc a) b,
  bit_xor-bitwise (suc a / 2) (b / 2),
  xor_digits_fuel a (suc a / 2) (suc a / 2) (b / 2) (omega arith) (omega arith),
  differ_lem (suc a % 2) (b % 2) (omega arith) (omega arith),
)

-- The bit of a sum of bits tells the one from the other.
bit_cancel : (x y b : ℕ) → (x % 2 + b % 2) % 2 ≡ (y % 2 + b % 2) % 2 → x % 2 ≡ y % 2
bit_cancel x y b h = omega arith

xor_injective_fuel : (n x y b : ℕ) → x ≤ n → y ≤ n → bit_xor x b ≡ bit_xor y b → x ≡ y
xor_injective_fuel zero x y b p q e = omega arith
xor_injective_fuel (suc n) x y b p q e =
    let sx = bit_xor_step x b in
    let sy = bit_xor_step y b in
    let high : bit_xor (x / 2) (b / 2) ≡ bit_xor (y / 2) (b / 2) = omega arith in
    let ih = xor_injective_fuel n (x / 2) (y / 2) (b / 2) (omega arith) (omega arith) high in
    omega (arith, bit_cancel x y b (omega arith))

-- `x ^ b` determines `x`.
pub bit_xor_injective : (x y b : ℕ) → bit_xor x b ≡ bit_xor y b → x ≡ y
bit_xor_injective x y b e = xor_injective_fuel (x + y) x y b (omega arith) (omega arith) e

xor_comm_fuel : (n a b : ℕ) → a ≤ n → b ≤ n → bit_xor a b ≡ bit_xor b a
xor_comm_fuel zero zero zero p q = refl
xor_comm_fuel zero zero (suc b) p q = absurd (omega arith)
xor_comm_fuel zero (suc a) b p q = absurd (omega arith)
xor_comm_fuel (suc n) a b p q = omega (
  arith,
  bit_xor_step a b,
  bit_xor_step b a,
  xor_comm_fuel n (a / 2) (b / 2) (omega arith) (omega arith),
)

pub bit_xor_comm : (a b : ℕ) → bit_xor a b ≡ bit_xor b a
bit_xor_comm a b = xor_comm_fuel (a + b) a b (omega arith) (omega arith)

-- The exclusive or of two numbers of `k` bits has `k` bits.
pub bit_xor-lt : (k a b : ℕ) → a < 2 ^ k → b < 2 ^ k → bit_xor a b < 2 ^ k
bit_xor-lt zero a b p q = let za : a ≡ 0 = omega arith in rw za (omega (arith, zero-bit_xor b))
bit_xor-lt (suc k) a b p q = omega (
  arith,
  pow-suc 2 k,
  bit_xor_step a b,
  bit_xor-lt k (a / 2) (b / 2) (omega (arith, pow-suc 2 k)) (omega (arith, pow-suc 2 k)),
)

-- A mask with the bit `k` set sets it in a number of `k` bits.
pub bit_xor-top : (k x p : ℕ) → x < 2 ^ k → p < 2 ^ k → 2 ^ k ≤ bit_xor x (2 ^ k + p)
bit_xor-top zero x p hx hp =
    let zx : x ≡ 0 = omega arith in rw zx (omega (arith, zero-bit_xor (1 + p)))
bit_xor-top (suc k) x p hx hp =
    let two = pow-suc 2 k in
    let half : (2 ^ suc k + p) / 2 ≡ 2 ^ k + p / 2 = omega arith in
    let ih = bit_xor-top k (x / 2) (p / 2) (omega arith) (omega arith) in
    omega (arith, bit_xor_step x (2 ^ suc k + p), ap (bit_xor (x / 2)) half)

pub bit_xor-ne_self : (x b : ℕ) → b ≢ 0 → bit_xor x b ≢ x
bit_xor-ne_self x b h e = h (bit_xor_injective b 0 x (bit_xor_comm b x ∙ e ∙ sym (zero-bit_xor x)))
