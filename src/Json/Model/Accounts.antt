-- ===== src/Json/Model/Accounts.antt =====
-- The accounting of the small tree library.
use dsp_embedded.Prelude.{
  ◌≤◌, refl, inl, inr, ◌&&◌, Option, none, some, arith, leb, Bool-cases, Text, strcmp_eq,
}
use dsp_embedded.Json.Accounts.{Accounting, Made, Moved, Printed}
use dsp_embedded.Json.Model.{
  Tree, str, no_field, no_element, field, element, Allocator, blocks, granted_node, parse_tree,
  without, print_tree, put_field, parsed, depth_limit, trees,
}

Made-granted_node :
    (h : Allocator) (t : Tree) → Made trees (λ x. x.allocated) blocks h (granted_node h t)
unfolding granted_node
Made-granted_node h t = elim (Bool-cases (leb (blocks t) h.granted)) [
  | inl e ↦ rw e refl
  | inr e ↦ rw e refl
]

Made-parse_tree :
    (h : Allocator) (r : Option (Tree × Text))
    → Made trees (λ x. x.allocated) blocks h (parse_tree h r)
unfolding parse_tree
Made-parse_tree h none = refl
Made-parse_tree h (some r) = Made-granted_node h r.0

without_le : (o : Tree) (key : Text) → blocks (without o key) ≤ blocks o
unfolding without blocks
without_le (str s) key = omega arith
without_le no_field key = omega arith
without_le no_element key = omega arith
without_le (element v r) key = omega arith
without_le (field k v r) key = elim (Bool-cases (strcmp_eq k key)) [
  | inl e ↦ rw e (omega arith)
  | inr e ↦ rw e (omega (arith, without_le r key))
]

Moved-put_field :
    (h : Allocator) (o : Tree) (key : Text) (c : Tree)
    → Moved trees (λ x. x.allocated) blocks h o c (put_field h o key c)
unfolding put_field blocks
Moved-put_field h o key c = elim (Bool-cases (leb 1 h.granted)) [
  | inl e ↦ rw e (omega arith)
  | inr e ↦ rw e (refl, refl)
]

Printed-print_tree :
    (h : Allocator) (t : Tree) → Printed trees (λ x. x.allocated) blocks h (print_tree h t)
unfolding print_tree
Printed-print_tree h t = elim (Bool-cases (leb (blocks t) depth_limit && leb 1 h.granted)) [
  | inl e ↦ rw e (omega arith)
  | inr e ↦ rw e refl
]

pub trees-Accounting : Accounting trees
unfolding put_field print_tree parsed blocks
trees-Accounting = record {
  live = λ h. h.allocated;
  size = blocks;
  parse-Made = λ h text. Made-parse_tree h (parsed depth_limit text);
  create_object-Made = λ h. Made-granted_node h no_field;
  create_array-Made = λ h. Made-granted_node h no_element;
  create_string-Made = λ h s. Made-granted_node h (str s);
  delete_frees = λ h n. refl;
  delete_item_frees = λ h o key le. omega (arith, without_le o key, le);
  add_item-Moved = Moved-put_field;
  print-Printed = Printed-print_tree;
  add_to_array-Moved = λ h a c. omega arith;
  add_to_array_succeeds = λ h a c. refl;
}
