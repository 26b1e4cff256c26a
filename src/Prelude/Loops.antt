-- ===== src/Prelude/Loops.antt =====
-- The loops over a table that the components share: `for (i = 0; i < N; i++) if (p(t[i])) return i;`
-- and its counting form.
use Prim.Native.Nat.{ℕ, zero, suc, ◌+◌, ◌≤◌, ◌<◌}
use mathlib.Core.Path.{◌≡◌, refl, ap₂}
use mathlib.Core.Logic.{inl, inr}
use mathlib.Core.Bool.{Bool, true, false}
use mathlib.Core.List.{List, [], ◌∷◌, map}
use mathlib.Core.Option
use mathlib.Core.Option.{Option, none, some}
use native.Mathlib.Omega.{arith}
use dsp_embedded.Prelude.Tests.{if◌then◌else◌, Bool-cases, Option-cases}
use dsp_embedded.Prelude.Lists.{length, get_elem?, set, drop, drop_all, drop-step, get_elem?_of_lt}

module _ {ℓ} {A : Type ℓ} (p : A → Bool) where
  abbrev pub find_index : List A → Option ℕ
  find_index [] = none
  find_index (x ∷ xs) = if p x then some 0 else Option.map suc (find_index xs)

  abbrev pub count : List A → ℕ
  count [] = 0
  count (x ∷ xs) = if p x then suc (count xs) else count xs

  -- What a search that goes past the first entry has found, it found in the rest.
  pub find_index-cons :
      (x : A) (xs : List A) (i : ℕ)
      → find_index (x ∷ xs) ≡ some i
      → p x ≡ false
      → (k : ℕ) × (find_index xs ≡ some k) × (i ≡ suc k)
  find_index-cons x xs i h e = elim (Option-cases (find_index xs)) [
    | inl n ↦ absurd (ground arith)
    | inr (k, q) ↦ (k, q, ground arith)
  ]

  -- What the search finds satisfies the test.
  pub find_index-some :
      (xs : List A) (i : ℕ)
      → find_index xs ≡ some i
      → (x : A) × (get_elem? xs i ≡ some x) × (p x ≡ true)
  find_index-some [] i h = absurd (cc)
  find_index-some (x ∷ xs) i h = elim (Bool-cases (p x)) [
    | inl e ↦ (x, ground arith, e)
    | inr e ↦
        let (k, q, r) = find_index-cons x xs i h e in
        let (y, g, t) = find_index-some xs k q in (y, ground (arith, g, r), t)
  ]

  -- It is the first such entry.
  pub find_index-first :
      (xs : List A) (i j : ℕ) {y : A}
      → find_index xs ≡ some i
      → j < i
      → get_elem? xs j ≡ some y
      → p y ≡ false
  find_index-first [] i j h lt g = absurd (cc)
  find_index-first (x ∷ xs) i zero h lt g = ground arith
  find_index-first (x ∷ xs) i (suc j) h lt g = elim (Bool-cases (p x)) [
    | inl e ↦ absurd (ground arith)
    | inr e ↦
        let (k, q, r) = find_index-cons x xs i h e in find_index-first xs k j q (omega arith) g
  ]

  -- Where it finds none, no entry satisfies the test.
  pub find_index-none :
      (xs : List A) (i : ℕ) {x : A} → find_index xs ≡ none → get_elem? xs i ≡ some x → p x ≡ false
  find_index-none [] i h g = absurd (cc)
  find_index-none (x ∷ xs) zero h g = ground arith
  find_index-none (y ∷ xs) (suc i) h g = find_index-none xs i (past y xs h) g
    where
      past : (y : A) (xs : List A) → find_index (y ∷ xs) ≡ none → find_index xs ≡ none
      past y xs h = elim (Option-cases (find_index xs)) [
        | inl n ↦ n
        | inr (k, q) ↦ absurd (ground arith)
      ]

  -- A search that one entry satisfies succeeds.
  pub find_index_of_mem :
      (xs : List A) (i : ℕ) {x : A}
      → get_elem? xs i ≡ some x
      → p x ≡ true
      → (k : ℕ) × (find_index xs ≡ some k)
  find_index_of_mem xs i g t = elim (Option-cases (find_index xs)) [
    | inl n ↦ absurd (ground (arith, find_index-none xs i n g))
    | inr (k, q) ↦ (k, q)
  ]

  -- A hit that is written where the search found one is found there.
  pub find_index-set :
      (xs : List A) (i : ℕ) (y : A)
      → find_index xs ≡ some i
      → p y ≡ true
      → find_index (set xs i y) ≡ some i
  find_index-set [] i y h e = absurd (cc)
  find_index-set (x ∷ xs) zero y h e = rw e refl
  find_index-set (x ∷ xs) (suc i) y h e = elim (Bool-cases (p x)) [
    | inl b ↦ absurd (ground arith)
    | inr b ↦
        let (k, q, r) = find_index-cons x xs (suc i) h b in
        let same : find_index xs ≡ some i = ground (arith, q, r) in
        rw (b, find_index-set xs i y same e) refl
  ]

  -- The only hit is found.
  pub find_index-set_only :
      (xs : List A) (i : ℕ) (y : A)
      → find_index xs ≡ none
      → i < length xs
      → p y ≡ true
      → find_index (set xs i y) ≡ some i
  find_index-set_only [] i y h lt e = absurd (omega (arith, lt))
  find_index-set_only (x ∷ xs) zero y h lt e = rw e refl
  find_index-set_only (x ∷ xs) (suc i) y h lt e = elim (Bool-cases (p x)) [
    | inl b ↦ absurd (ground arith)
    | inr b ↦ elim (Option-cases (find_index xs)) [
      | inl n ↦ rw (b, find_index-set_only xs i y n (omega (arith, lt)) e) refl
      | inr (k, q) ↦ absurd (ground arith)
    ]
  ]

  pub count-le-length : (xs : List A) → count xs ≤ length xs
  count-le-length [] = omega arith
  count-le-length (x ∷ xs) = ground (arith, count-le-length xs)

  -- To write an entry that counts over one that does not adds one to the count.
  pub count-set_gain :
      (xs : List A) (i : ℕ) (v : A) {x : A}
      → get_elem? xs i ≡ some x
      → p x ≡ false
      → p v ≡ true
      → count (set xs i v) ≡ suc (count xs)
  count-set_gain [] i v g e t = absurd (cc)
  count-set_gain (y ∷ xs) zero v g e t = ground arith
  count-set_gain (y ∷ xs) (suc i) v g e t = ground (arith, count-set_gain xs i v g e t)

  -- To write over an entry with the same answer keeps the count.
  pub count-set_same :
      (xs : List A) (i : ℕ) (v : A) {x : A}
      → get_elem? xs i ≡ some x
      → p v ≡ p x
      → count (set xs i v) ≡ count xs
  count-set_same [] i v g e = absurd (cc)
  count-set_same (y ∷ xs) zero v g e = ground arith
  count-set_same (y ∷ xs) (suc i) v g e = ground (arith, count-set_same xs i v g e)

  -- The search fails exactly where every entry fails the test: then the others make up the table.
  pub count-not : (xs : List A) → find_index xs ≡ none → count xs ≡ 0
  count-not [] h = refl
  count-not (x ∷ xs) h = elim (Option-cases (find_index xs)) [
    | inl n ↦ ground (arith, count-not xs n)
    | inr (k, q) ↦ absurd (ground arith)
  ]

-- `for (i = k; i < k + n; i++) out[i] = f(i);`
abbrev pub tabulate {ℓ} : {B : Type ℓ} → (ℕ → B) → ℕ → ℕ → List B
tabulate f i zero = []
tabulate f i (suc n) = f i ∷ tabulate f (i + 1) n

module _ {ℓ κ} {A : Type ℓ} {B : Type κ} (f : ℕ → B) (g : A → B) (t : List A) where
  tabulate-drop :
      ((i : ℕ) (x : A) → get_elem? t i ≡ some x → f i ≡ g x)
      → (n k : ℕ) → k + n ≡ length t
      → tabulate f k n ≡ map g (drop k t)
  tabulate-drop each zero k h = rw (drop_all k t (omega arith))
  tabulate-drop each (suc n) k h =
      let (x, at) = get_elem?_of_lt t k (omega arith) in
      rw (drop-step t k x at) (ap₂ ◌∷◌ (each k x at) (tabulate-drop each n (k + 1) (omega arith)))

  -- A loop that fills each place from the entry at that place is a map.
  pub tabulate-map :
      ((i : ℕ) (x : A) → get_elem? t i ≡ some x → f i ≡ g x) → tabulate f 0 (length t) ≡ map g t
  tabulate-map each = tabulate-drop each (length t) 0 (omega arith)
