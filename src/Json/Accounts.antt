-- ===== src/Json/Accounts.antt =====
-- The heap of cJSON (components/dsp_json): what its calls allocate and free, as its manual has it.
use dsp_embedded.Prelude.{
  ℕ, ◌+◌, ◌-◌, ◌≤◌, ◌≡◌, refl, inl, inr, Bool, true, false, Option, none, some, arith, Text,
  Bool-cases, ltb, length, ◌==◌,
}
use dsp_embedded.Json.{CJson, replace_string, put, kept, delivered, json_print}

module _ (J : CJson) (live : J.Heap → ℕ) (size : J.Node → ℕ) where
  -- A call on heap `h` made a node, or nothing and left the heap alone.
  abbrev pub Made : J.Heap → Option J.Node × J.Heap → Type 0
  Made h (none, h') = live h' ≡ live h
  Made h (some n, h') = live h' ≡ live h + size n

  -- A call on heap `h` moved `c` into `o`, or changed nothing.
  abbrev pub Moved : J.Heap → J.Node → J.Node → Bool × J.Node × J.Heap → Type 0
  Moved h o c (false, o', h') = (live h' ≡ live h) × (size o' ≡ size o)
  Moved h o c (true, o', h') = live h' + size o + size c ≡ live h + size o'

  -- A call on heap `h` made a text, which is what `cJSON_free` then frees, or nothing.
  abbrev pub Printed : J.Heap → Option Text × J.Heap → Type 0
  Printed h (none, h') = live h' ≡ live h
  Printed h (some s, h') = live (J.free h' s) ≡ live h

-- How many blocks are allocated, how many of them a tree has, and what the calls do to the number.
-- The last law leaves out a failure that `cJSON_AddItemToArray` has on NULL and on the array itself
-- only.
pub record Accounting (J : CJson) : Type 0 where
  pub live : J.Heap → ℕ
  pub size : J.Node → ℕ
  pub parse-Made : (h : J.Heap) (text : Text) → Made J live size h (J.parse h text)
  pub create_object-Made : (h : J.Heap) → Made J live size h (J.create_object h)
  pub create_array-Made : (h : J.Heap) → Made J live size h (J.create_array h)
  pub create_string-Made : (h : J.Heap) (s : Text) → Made J live size h (J.create_string h s)
  pub delete_frees : (h : J.Heap) (n : J.Node) → live (J.delete h n) ≡ live h - size n
  pub delete_item_frees :
      (h : J.Heap) (o : J.Node) (key : Text)
      → size o ≤ live h
      → live (J.delete_item h o key).1 + size o ≡ live h + size (J.delete_item h o key).0
  pub add_item-Moved :
      (h : J.Heap) (o : J.Node) (key : Text) (c : J.Node)
      → Moved J live size h o c (J.add_item h o key c)
  pub print-Printed : (h : J.Heap) (n : J.Node) → Printed J live size h (J.print_unformatted h n)
  pub add_to_array-Moved :
      (h : J.Heap) (a c : J.Node) → Moved J live size h a c (J.add_to_array h a c)
  pub add_to_array_succeeds : (h : J.Heap) (a c : J.Node) → (J.add_to_array h a c).0 ≡ true

module _ (J : CJson) (A : Accounting J) where
  -- Of the blocks on the heap, all but `l` belong to the object under construction.
  abbrev pub Balanced : ℕ → Bool × J.Node × J.Heap → Type 0
  Balanced l (b, o, h) = A.live h ≡ l + A.size o

  kept-Balanced :
      (l : ℕ) (h : J.Heap) (o item : J.Node) (r : Bool × J.Node × J.Heap)
      → A.live h ≡ l + A.size o + A.size item
      → Moved J A.live A.size h o item r
      → Balanced l (kept J item r)
  kept-Balanced l h o item (false, o', h') e m = omega (arith, A.delete_frees h' item, m.0, m.1, e)
  kept-Balanced l h o item (true, o', h') e m = omega (arith, m, e)

  put-Balanced :
      (l : ℕ) (h : J.Heap) (o : J.Node) (key : Text) (r : Option J.Node × J.Heap)
      → A.live h ≡ l + A.size o
      → Made J A.live A.size h r
      → Balanced l (put J o key r)
  put-Balanced l h o key (none, h') e m = omega (arith, m, e)
  put-Balanced l h o key (some item, h') e m =
      kept-Balanced l h' o item (J.add_item h' o key item) (omega (arith, m, e))
        (A.add_item-Moved h' o key item)

  pub replace_string-Balanced :
      (l : ℕ) (h : J.Heap) (o : J.Node) (key val : Text)
      → A.live h ≡ l + A.size o
      → Balanced l (replace_string J h o key val)
  unfolding replace_string
  replace_string-Balanced l h o key val e =
      let d = J.delete_item h o key in
      put-Balanced l d.1 d.0 key (J.create_string d.1 val)
        (omega (arith, A.delete_item_frees h o key (omega (arith, e)), e))
        (A.create_string-Made d.1 val)

  delivered_frees :
      (cap : ℕ) (h : J.Heap) (r : Option Text × J.Heap)
      → Printed J A.live A.size h r
      → A.live (delivered J cap r).2 ≡ A.live h
  delivered_frees cap h (none, h') p = p
  delivered_frees cap h (some s, h') p = elim (Bool-cases (ltb (length s) cap)) [
    | inl e ↦ rw e p
    | inr e ↦ rw e p
  ]

  -- Printing leaves nothing on the heap.
  pub json_print_frees :
      (h : J.Heap) (o : J.Node) (out : Text) (cap : ℕ)
      → A.live (json_print J h (some o) (some out) cap).2 ≡ A.live h
  unfolding json_print
  json_print_frees h o out cap = elim (Bool-cases (cap == 0)) [
    | inl e ↦ rw e refl
    | inr e ↦ rw e (delivered_frees cap h (J.print_unformatted h o) (A.print-Printed h o))
  ]
