-- ===== src/Json.antt =====
-- components/dsp_json/dsp_json.c: the wrapper around cJSON. cJSON, the vendored library under it, is
-- a parameter: its tree nodes are values that their owner passes on, and its allocator is a heap
-- that every call that allocates or frees takes and returns. A `char *` with its capacity is the
-- option of the string that stands in the buffer, and a number.
use dsp_embedded.Prelude.{
  ℕ, ◌≡◌, Bool, true, false, not, ◌&&◌, Option, none, some, List, [], ◌∷◌, if◌then◌else◌, ltb, ◌==◌,
  length, Text, codes,
}
pub mod Accounts
pub mod Documents
pub mod Model

-- The functions of cJSON that the program calls, on pointers that are not NULL.
pub record CJson : Type 1 where
  pub Heap : Type 0
  pub Node : Type 0
  pub parse : Heap → Text → Option Node × Heap
  pub delete : Heap → Node → Heap
  pub get_item : Node → Text → Option Node
  pub is_string : Node → Bool
  pub is_object : Node → Bool
  pub valuestring : Node → Option Text
  pub create_object : Heap → Option Node × Heap
  pub create_array : Heap → Option Node × Heap
  pub create_string : Heap → Text → Option Node × Heap
  pub delete_item : Heap → Node → Text → Node × Heap
  pub add_item : Heap → Node → Text → Node → Bool × Node × Heap
  pub add_to_array : Heap → Node → Node → Bool × Node × Heap
  pub print_unformatted : Heap → Node → Option Text × Heap
  pub free : Heap → Text → Heap

-- `DSP_JSON_FIELD_CONTEXT` and `DSP_JSON_FIELD_TYPE`.
abbrev pub field_context : Text
field_context = codes "@context"

abbrev pub field_type : Text
field_type = codes "@type"

-- `s[0] != '\0'`.
abbrev pub is_nonempty : Text → Bool
is_nonempty [] = false
is_nonempty (c ∷ s) = true

-- `if (buf && cap > 0u) { buf[0] = '\0'; }`, for a buffer that is there.
abbrev pub emptied : ℕ → Text → Text
emptied cap b = if cap == 0 then b else []

module _ (J : CJson) where
  unfoldable json_parse : J.Heap → Option Text → Option J.Node × J.Heap
  json_parse h none = (none, h)
  json_parse h (some text) = J.parse h text

  -- `cJSON_Delete` does nothing on NULL.
  unfoldable json_delete : J.Heap → Option J.Node → J.Heap
  json_delete h none = h
  json_delete h (some obj) = J.delete h obj

  -- `cJSON_IsString(item) && item->valuestring`, and what it points to.
  abbrev pub string_value : Option J.Node → Option Text
  string_value none = none
  string_value (some item) = if J.is_string item then J.valuestring item else none

  -- `cJSON_IsString(item)`, which is false on NULL.
  abbrev pub is_string_item : Option J.Node → Bool
  is_string_item none = false
  is_string_item (some item) = J.is_string item

  abbrev pub is_object_item : Option J.Node → Bool
  is_object_item none = false
  is_object_item (some item) = J.is_object item

  -- The copy into the buffer, if the string fits with its NUL.
  abbrev pub copied : ℕ → Option Text → Bool × Option Text
  copied cap none = (false, some [])
  copied cap (some s) = if ltb (length s) cap then (true, some s) else (false, some [])

  unfoldable pub get_string : Option J.Node → Option Text → Option Text → ℕ → Bool × Option Text
  get_string obj key none cap = (false, none)
  get_string none key (some b) cap = (false, some (emptied cap b))
  get_string (some o) none (some b) cap = (false, some (emptied cap b))
  get_string (some o) (some key) (some b) cap =
      if cap == 0 then (false, some b) else copied cap (string_value (J.get_item o key))

  unfoldable get_type : Option J.Node → Option Text → ℕ → Bool × Option Text
  get_type obj buf cap = get_string obj (some field_type) buf cap

  unfoldable pub get_context : Option J.Node → Option Text → ℕ → Bool × Option Text
  get_context obj buf cap = get_string obj (some field_context) buf cap

  -- A string that is there and not empty.
  abbrev pub is_filled : Option Text → Bool
  is_filled none = false
  is_filled (some s) = is_nonempty s

  unfoldable has_mandatory_fields : Option J.Node → Bool
  has_mandatory_fields none = false
  has_mandatory_fields (some o) =
      is_filled (string_value (J.get_item o field_context))
      && is_filled (string_value (J.get_item o field_type))

  unfoldable pub new_object : J.Heap → Option J.Node × J.Heap
  new_object h = J.create_object h

  -- The result of `cJSON_AddItemToObject` for the new string `item`.
  abbrev pub kept : J.Node → Bool × J.Node × J.Heap → Bool × J.Node × J.Heap
  kept item (false, o, h) = (false, o, J.delete h item)
  kept item (true, o, h) = (true, o, h)

  -- The new string is put under the key, if it was created.
  abbrev pub put : J.Node → Text → Option J.Node × J.Heap → Bool × J.Node × J.Heap
  put o key (none, h) = (false, o, h)
  put o key (some item, h) = kept item (J.add_item h o key item)

  -- `dsp_json_add_string` on pointers that are not NULL.
  unfoldable pub replace_string : J.Heap → J.Node → Text → Text → Bool × J.Node × J.Heap
  replace_string h obj key val =
      let (o, h1) = J.delete_item h obj key in put o key (J.create_string h1 val)

  abbrev pub present : Bool × J.Node × J.Heap → Bool × Option J.Node × J.Heap
  present (b, o, h) = (b, some o, h)

  unfoldable add_string :
      J.Heap → Option J.Node → Option Text → Option Text → Bool × Option J.Node × J.Heap
  unfolding replace_string
  add_string h none key val = (false, none, h)
  add_string h (some o) none val = (false, some o, h)
  add_string h (some o) (some key) none = (false, some o, h)
  add_string h (some o) (some key) (some val) = present (replace_string h o key val)

  -- The text that cJSON printed is copied if it fits with its NUL, and freed.
  abbrev pub delivered : ℕ → Option Text × J.Heap → Bool × Option Text × J.Heap
  delivered cap (none, h) = (false, some [], h)
  delivered cap (some s, h) =
      if ltb (length s) cap then (true, some s, J.free h s) else (false, some [], J.free h s)

  unfoldable pub json_print : J.Heap → Option J.Node → Option Text → ℕ → Bool × Option Text × J.Heap
  json_print h obj none cap = (false, none, h)
  json_print h none (some b) cap = (false, some (emptied cap b), h)
  json_print h (some o) (some b) cap =
      if cap == 0 then (false, some b, h) else delivered cap (J.print_unformatted h o)

  unfoldable print_alloc : J.Heap → Option J.Node → Option Text × J.Heap
  print_alloc h none = (none, h)
  print_alloc h (some o) = J.print_unformatted h o

  -- `cJSON_free` does nothing on NULL.
  unfoldable free_str : J.Heap → Option Text → J.Heap
  free_str h none = h
  free_str h (some s) = J.free h s
