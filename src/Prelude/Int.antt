-- ===== src/Prelude/Int.antt =====
-- A C `int` where the program tells a negative value from the others: an index argument, a result
-- in which -1 means "none". Only the sign and the value are read, so there is no arithmetic.
use Prim.Native.Nat.{ℕ}
use mathlib.Core.Option.{Option, none, some}

-- `negsuc n` is -(n + 1).
pub data ℤ : Type 0 where
  pos : ℕ → ℤ
  negsuc : ℕ → ℤ

-- What a search returns: an index, or -1.
abbrev pub index_or_minus_one : Option ℕ → ℤ
index_or_minus_one none = negsuc 0
index_or_minus_one (some i) = pos i
