-- ===== src/Json/Documents.antt =====
-- The trees of cJSON (components/dsp_json): what its manual says of the values that its calls make.
use dsp_embedded.Prelude.{◌≡◌, ◌≢◌, Bool, true, false, Option, none, some, Text}
use dsp_embedded.Json.{CJson}

module _ (J : CJson) where
  -- The result of a call that makes a node has the property, if there is one.
  abbrev pub IfMade : (J.Node → Type 0) → Option J.Node × J.Heap → Type 0
  IfMade P (none, h) = Unit {0}
  IfMade P (some n, h) = P n

  -- The object that the flag says was changed has the property.
  abbrev pub IfDone : (J.Node → Type 0) → Bool × J.Node × J.Heap → Type 0
  IfDone P (false, n, h) = Unit {0}
  IfDone P (true, n, h) = P n

-- A new object has no item, an item is found under the key under which it was added to an object
-- without that key, the other items stay, deleting a missing key changes nothing, and what was
-- printed parses to the same value.
pub record Documented (J : CJson) : Type 0 where
  pub create_object_empty :
      (h : J.Heap)
      → IfMade J
          (λ o. (J.is_object o ≡ true) × ((key : Text) → J.get_item o key ≡ none))
          (J.create_object h)
  pub create_string_holds :
      (h : J.Heap) (s : Text)
      → IfMade J (λ n. (J.is_string n ≡ true) × (J.valuestring n ≡ some s)) (J.create_string h s)
  pub delete_item_absent :
      (h : J.Heap) (o : J.Node) (key : Text)
      → J.get_item o key ≡ none
      → (J.delete_item h o key).0 ≡ o
  pub add_item_found :
      (h : J.Heap) (o : J.Node) (key : Text) (c : J.Node)
      → J.get_item o key ≡ none
      → IfDone J (λ o'. J.get_item o' key ≡ some c) (J.add_item h o key c)
  pub add_item_others :
      (h : J.Heap) (o : J.Node) (key : Text) (c : J.Node)
      → IfDone J
          (λ o'. (other : Text) → other ≢ key → J.get_item o' other ≡ J.get_item o other)
          (J.add_item h o key c)
  pub add_item_object :
      (h : J.Heap) (o : J.Node) (key : Text) (c : J.Node)
      → J.is_object o ≡ true
      → IfDone J (λ o'. J.is_object o' ≡ true) (J.add_item h o key c)
  pub parse-print :
      (h h' : J.Heap) (n : J.Node) (s : Text)
      → (J.print_unformatted h n).0 ≡ some s
      → IfMade J (λ n'. n' ≡ n) (J.parse h' s)
