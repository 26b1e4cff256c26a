-- ===== src/Json/Model/Documents.antt =====
-- The values of the small tree library.
use dsp_embedded.Prelude.{
  ℕ, zero, suc, ◌≤◌, ◌≡◌, ◌≢◌, refl, ap, sym, ◌∙◌, inl, inr, true, ◌&&◌, Option, none, some, [],
  ◌∷◌, arith, leb, Bool-cases, Text, strcmp_eq, strcmp_eq_refl, strcmp_eq_iff,
}
use dsp_embedded.Json.Documents.{Documented, IfMade, IfDone}
use dsp_embedded.Json.Model.{
  Tree, str, no_field, no_element, field, element, Allocator, blocks, granted_node, parse_tree,
  without, print_tree, put_field, parsed, depth_limit, trees, find, unquoted, quoted, printed,
  is_obj, is_str, str_of,
}

unquoted-quoted : (s rest : Text) → unquoted (quoted s rest) ≡ some (s, rest)
unfolding unquoted quoted
unquoted-quoted [] rest = refl
unquoted-quoted (c ∷ s) rest = simp (unquoted-quoted s rest, unquoted, quoted)

blocks_positive : (t : Tree) → 1 ≤ blocks t
unfolding blocks
blocks_positive (str s) = omega arith
blocks_positive no_field = omega arith
blocks_positive no_element = omega arith
blocks_positive (field k v r) = omega (arith, blocks_positive v)
blocks_positive (element v r) = omega (arith, blocks_positive v)

parsed-printed :
    (n : ℕ) (t : Tree) (rest : Text) → blocks t ≤ n → parsed n (printed t rest) ≡ some (t, rest)
unfolding blocks parsed printed
parsed-printed zero t rest h = absurd (omega (arith, blocks_positive t))
parsed-printed (suc n) (str s) rest h = simp (unquoted-quoted s rest, parsed, printed)
parsed-printed (suc n) no_field rest h = refl
parsed-printed (suc n) no_element rest h = refl
parsed-printed (suc n) (field k v r) rest h = simp (
  unquoted-quoted k (printed v (printed r rest)),
  parsed-printed n v (printed r rest) (omega (arith, blocks_positive r)),
  parsed-printed n r rest (omega (arith, blocks_positive v)),
  parsed,
  printed,
)
parsed-printed (suc n) (element v r) rest h = simp (
  parsed-printed n v (printed r rest) (omega (arith, blocks_positive r)),
  parsed-printed n r rest (omega (arith, blocks_positive v)),
  parsed,
  printed,
)

IfGranted : (Tree → Type 0) → Allocator → Tree → Type 0
IfGranted P h t = IfMade trees P (granted_node h t)

granted : (P : Tree → Type 0) (h : Allocator) (t : Tree) → P t → IfGranted P h t
unfolding granted_node IfGranted
granted P h t p = elim (Bool-cases (leb (blocks t) h.granted)) [ inl e ↦ rw e p | inr e ↦ rw e tt ]

without_absent : (o : Tree) (key : Text) → find o key ≡ none → without o key ≡ o
unfolding find without
without_absent (str s) key e = refl
without_absent no_field key e = refl
without_absent no_element key e = refl
without_absent (element v r) key e = refl
without_absent (field k v r) key e = elim (Bool-cases (strcmp_eq k key)) [
  | inl same ↦ absurd (ground (arith, same, e))
  | inr other ↦ rw other (ap (field k v) (without_absent r key (ground (arith, other, e))))
]

-- The item that was put is in front, if a block for the key was granted.
placed :
    (P : Tree → Type 0) (h : Allocator) (o : Tree) (key : Text) (c : Tree)
    → P (field key c o)
    → IfDone trees P (put_field h o key c)
unfolding put_field
placed P h o key c p = elim (Bool-cases (leb 1 h.granted)) [ inl e ↦ rw e p | inr e ↦ rw e tt ]

find-other :
    (o c : Tree) (key other : Text) → other ≢ key → find (field key c o) other ≡ find o other
unfolding find
find-other o c key other d = elim (Bool-cases (strcmp_eq key other)) [
  | inl e ↦ absurd (d (sym ((strcmp_eq_iff key other).0 e)))
  | inr e ↦ rw e refl
]

print_tree_fits :
    (h : Allocator) (t : Tree) (s : Text)
    → (print_tree h t).0 ≡ some s
    → (blocks t ≤ depth_limit) × (printed t [] ≡ s)
unfolding print_tree
print_tree_fits h t s e = elim (Bool-cases (leb (blocks t) depth_limit && leb 1 h.granted)) [
  | inl b ↦ (ground (arith, b), ground (arith, e, b))
  | inr b ↦ absurd (ground (arith, e, b))
]

parse_tree_gives :
    (h : Allocator) (r : Option (Tree × Text)) (t : Tree)
    → r ≡ some (t, [])
    → IfMade trees (λ n. n ≡ t) (parse_tree h r)
unfolding parse_tree IfGranted
parse_tree_gives h r t e = rw e (granted (λ n. n ≡ t) h t refl)

reparsed :
    (n : ℕ) (t : Tree) (s : Text) → blocks t ≤ n → printed t [] ≡ s → parsed n s ≡ some (t, [])
reparsed n t s le e = ap (parsed n) (sym e) ∙ parsed-printed n t [] le

parse_printed :
    (h h' : Allocator) (t : Tree) (s : Text)
    → (print_tree h t).0 ≡ some s
    → IfMade trees (λ n. n ≡ t) (trees.parse h' s)
parse_printed h h' t s e =
    let f = print_tree_fits h t s e in
    parse_tree_gives h' (parsed depth_limit s) t (reparsed depth_limit t s f.0 f.1)

pub trees-Documented : Documented trees
unfolding put_field IfGranted find granted_node
trees-Documented = record {
  create_object_empty = λ h.
      granted (λ o. (is_obj o ≡ true) × ((key : Text) → find o key ≡ none)) h no_field
        (refl, λ key. refl);
  create_string_holds =
      λ h s. granted (λ n. (is_str n ≡ true) × (str_of n ≡ some s)) h (str s) (refl, refl);
  delete_item_absent = λ h o key. without_absent o key;
  add_item_found =
      λ h o key c a. placed (λ o'. find o' key ≡ some c) h o key c (rw (strcmp_eq_refl key) refl);
  add_item_others = λ h o key c.
      placed (λ o'. (other : Text) → other ≢ key → find o' other ≡ find o other) h o key c
        (find-other o c key);
  add_item_object = λ h o key c a. placed (λ o'. is_obj o' ≡ true) h o key c refl;
  parse-print = parse_printed;
}
