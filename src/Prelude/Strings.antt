-- ===== src/Prelude/Strings.antt =====
-- C strings: the bytes before the terminating NUL. A `char[n]` field that `strncpy` and a written
-- terminator filled is the string that it holds.
use Prim.Native.Nat.{ℕ, ◌-◌, ◌<◌}
use Prim.Native.Char.{code}
use Prim.Native.String.{String}
use mathlib.Core.Path.{◌≡◌, refl}
use mathlib.Core.Logic.{◌↔◌}
use mathlib.Core.Bool.{Bool, true, false, ◌&&◌}
use mathlib.Core.List.{List, [], ◌∷◌}
use native.Mathlib.Omega.{arith}
use dsp_embedded.Prelude.Tests.{◌==◌}
use dsp_embedded.Prelude.Lists.{take}

abbrev pub Text : Type 0
Text = List ℕ

-- The code points of a literal, which are its bytes where it is ASCII.
abbrev pub codes : String → Text
codes String.[] = []
codes (String.◌∷◌ c s) = code c ∷ codes s

-- `strcmp(a, b) == 0`.
unfoldable pub strcmp_eq : Text → Text → Bool
strcmp_eq [] [] = true
strcmp_eq [] (b ∷ bs) = false
strcmp_eq (a ∷ as_) [] = false
strcmp_eq (a ∷ as_) (b ∷ bs) = (a == b) && strcmp_eq as_ bs

pub strcmp_eq_iff : (a b : Text) → (strcmp_eq a b ≡ true) ↔ (a ≡ b)
unfolding strcmp_eq
strcmp_eq_iff [] [] = (λ h. refl, λ h. refl)
strcmp_eq_iff [] (b ∷ bs) = (λ h. cc, λ h. cc)
strcmp_eq_iff (a ∷ as_) [] = (λ h. cc, λ h. cc)
strcmp_eq_iff (a ∷ as_) (b ∷ bs) =
    (λ h. ground (arith, (strcmp_eq_iff as_ bs).0), λ h. ground (arith, (strcmp_eq_iff as_ bs).1))

pub strcmp_eq_refl : (a : Text) → strcmp_eq a a ≡ true
strcmp_eq_refl a = (strcmp_eq_iff a a).1 refl

-- `strncmp(a, b, n) == 0`: at most `n` bytes are compared, and a NUL ends the comparison.
abbrev pub strncmp_eq : ℕ → Text → Text → Bool
strncmp_eq n a b = strcmp_eq (take n a) (take n b)

-- `strncpy(f, src, n - 1); f[n - 1] = '\0'` into a field of `n` bytes.
abbrev pub strncpy_field : ℕ → Text → Text
strncpy_field n src = take (n - 1) src

-- Every number is one that a byte can hold.
abbrev pub AllBytes : List ℕ → Type 0
AllBytes [] = Unit {0}
AllBytes (b ∷ bs) = (b < 256) × AllBytes bs
