-- ===== src/Handlers/Path.antt =====
-- The process ID in the path of a request (extract_neg_id of components/dsp_neg/dsp_neg.c and
-- extract_xfer_id of components/dsp_xfer/dsp_xfer.c).
use dsp_embedded.Prelude.{
  ℕ, ◌-◌, ◌<◌, ◌≡◌, ◌≢◌, refl, ap, ◌∙◌, inl, inr, true, some, [], ◌∷◌, ◌++◌, arith, ◌==◌,
  Bool-cases, length, take, drop, take_of_le, Text, strcmp_eq, strcmp_eq_refl, strncmp_eq, ap₂,
}
use dsp_embedded.Handlers.{before_slash, segment}

-- The text has no `/`.
abbrev pub HasNoSlash : Text → Type 0
HasNoSlash [] = Unit {0}
HasNoSlash (c ∷ s) = (c ≢ 47) × HasNoSlash s

take-length : (a b : Text) → take (length a) (a ++ b) ≡ a
take-length [] b = refl
take-length (c ∷ a) b = ap (◌∷◌ c) (take-length a b)

drop-length : (a b : Text) → drop (length a) (a ++ b) ≡ b
drop-length [] b = refl
drop-length (c ∷ a) b = drop-length a b

before_slash_lem : (id rest : Text) → HasNoSlash id → before_slash (id ++ (47 ∷ rest)) ≡ id
before_slash_lem [] rest n = refl
before_slash_lem (c ∷ id) rest n = elim (Bool-cases (c == 47)) [
  | inl e ↦ absurd (ground (arith, e, n.0))
  | inr e ↦ rw (e, before_slash_lem id rest n.1) refl
]

-- From a path of the prefix, an ID without `/` that fits the buffer, `/` and anything, the ID is
-- extracted.
pub segment_lem :
    (prefix id rest : Text) (size : ℕ)
    → HasNoSlash id
    → length id < size
    → segment prefix (some (prefix ++ (id ++ (47 ∷ rest)))) size ≡ id
unfolding segment
segment_lem prefix id rest size n fits =
    let uri = prefix ++ (id ++ (47 ∷ rest)) in
    let starts : strncmp_eq (length prefix) uri prefix ≡ true =
      ap₂ strcmp_eq (take-length prefix (id ++ (47 ∷ rest)))
        (take_of_le (length prefix) prefix (omega arith))
      ∙ strcmp_eq_refl prefix in
    rw (starts, drop-length prefix (id ++ (47 ∷ rest)), before_slash_lem id rest n)
      (take_of_le (size - 1) id (omega (arith, fits)))
