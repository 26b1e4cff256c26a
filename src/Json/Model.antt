-- ===== src/Json/Model.antt =====
-- A small tree library with the interface of cJSON, at which the theorems over cJSON are applied. It
-- is not a model of cJSON: its texts are not JSON, and its heap counts down the allocations that it
-- still grants.
use dsp_embedded.Prelude.{
  ℕ, zero, suc, ◌+◌, ◌-◌, ◌≤◌, ◌≡◌, ◌≢◌, refl, ap, inl, inr, Bool, true, false, Option, none, some,
  List, [], ◌∷◌, arith, ◌&&◌, if◌then◌else◌, ◌>>=◌, leb, ltb, Bool-cases, Text, strcmp_eq,
  strcmp_eq_refl, strcmp_eq_iff,
}
use dsp_embedded.Json.{CJson}
use dsp_embedded.Json.Accounts.{Accounting, Made, Moved, Printed}
use dsp_embedded.Json.Documents.{Documented}
pub mod Accounts
pub mod Documents

-- A string, an object as its fields, or an array as its elements.
pub data Tree : Type 0 where
  str : Text → Tree
  no_field no_element : Tree
  field : Text → Tree → Tree → Tree
  element : Tree → Tree → Tree

pub record Allocator : Type 0 where
  pub granted : ℕ
  pub allocated : ℕ

unfoldable pub blocks : Tree → ℕ
blocks (str s) = 1
blocks no_field = 1
blocks no_element = 1
blocks (field k v r) = 1 + blocks v + blocks r
blocks (element v r) = blocks v + blocks r

unfoldable pub quoted : Text → Text → Text
quoted [] rest = 1 ∷ rest
quoted (c ∷ s) rest = 2 ∷ c ∷ quoted s rest

unfoldable pub printed : Tree → Text → Text
printed (str s) rest = 1 ∷ quoted s rest
printed no_field rest = 2 ∷ rest
printed no_element rest = 3 ∷ rest
printed (field k v r) rest = 4 ∷ quoted k (printed v (printed r rest))
printed (element v r) rest = 5 ∷ printed v (printed r rest)

-- The string in front of a text, and the rest of the text.
unfoldable pub unquoted : Text → Option (Text × Text)
unquoted (suc zero ∷ rest) = some ([], rest)
unquoted (suc (suc zero) ∷ c ∷ t) = elim (unquoted t) [ none ↦ none | some r ↦ some (c ∷ r.0, r.1) ]
unquoted t = none

-- The tree in front of a text, on fuel, and the rest of the text.
unfoldable pub parsed : ℕ → Text → Option (Tree × Text)
unfolding unquoted
parsed zero t = none
parsed (suc n) (suc zero ∷ t) = do s ← unquoted t; some (str s.0, s.1)
parsed (suc n) (suc (suc zero) ∷ t) = some (no_field, t)
parsed (suc n) (suc (suc (suc zero)) ∷ t) = some (no_element, t)
parsed (suc n) (suc (suc (suc (suc zero))) ∷ t) = do
  k ← unquoted t
  v ← parsed n k.1
  r ← parsed n v.1
  some (field k.0 v.0 r.0, r.1)
parsed (suc n) (suc (suc (suc (suc (suc zero)))) ∷ t) = do
  v ← parsed n t
  r ← parsed n v.1
  some (element v.0 r.0, r.1)
parsed (suc n) t = none

-- The node if its blocks are still granted.
unfoldable pub granted_node : Allocator → Tree → Option Tree × Allocator
granted_node h t =
    if leb (blocks t) h.granted
    then (some t, record { granted = h.granted - blocks t; allocated = h.allocated + blocks t })
    else (none, h)

unfoldable pub parse_tree : Allocator → Option (Tree × Text) → Option Tree × Allocator
parse_tree h none = (none, h)
parse_tree h (some r) = granted_node h r.0

unfoldable pub find : Tree → Text → Option Tree
find (field k v r) key = if strcmp_eq k key then some v else find r key
find t key = none

unfoldable pub without : Tree → Text → Tree
without (field k v r) key =
    let rest = without r key in if strcmp_eq k key then r else field k v rest
without t key = t

abbrev pub is_str : Tree → Bool
is_str (str s) = true
is_str t = false

abbrev pub is_obj : Tree → Bool
is_obj no_field = true
is_obj (field k v r) = true
is_obj t = false

abbrev pub str_of : Tree → Option Text
str_of (str s) = some s
str_of t = none

-- The nesting of what is printed is bounded.
abbrev pub depth_limit : ℕ
depth_limit = 100

unfoldable pub print_tree : Allocator → Tree → Option Text × Allocator
print_tree h t =
    if leb (blocks t) depth_limit && leb 1 h.granted
    then (some (printed t []), record { granted = h.granted - 1; allocated = h.allocated + 1 })
    else (none, h)

abbrev pub freed : Allocator → ℕ → Allocator
freed h n = record h { allocated = h.allocated - n }

-- The key is a block.
unfoldable pub put_field : Allocator → Tree → Text → Tree → Bool × Tree × Allocator
put_field h o key c =
    if leb 1 h.granted
    then (true, field key c o, record { granted = h.granted - 1; allocated = h.allocated + 1 })
    else (false, o, h)

abbrev pub trees : CJson
trees = record {
  Heap = Allocator;
  Node = Tree;
  parse = λ h text. parse_tree h (parsed depth_limit text);
  delete = λ h n. freed h (blocks n);
  get_item = find;
  is_string = is_str;
  is_object = is_obj;
  valuestring = str_of;
  create_object = λ h. granted_node h no_field;
  create_array = λ h. granted_node h no_element;
  create_string = λ h s. granted_node h (str s);
  delete_item = λ h o key. (without o key, freed h (blocks o - blocks (without o key)));
  add_item = put_field;
  add_to_array = λ h a c. (true, element c a, h);
  print_unformatted = print_tree;
  free = λ h s. freed h 1;
}
