-- ===== src/Build/Accounts.antt =====
-- What the builders (components/dsp_build/dsp_build.c) leave on the heap of cJSON.
use dsp_embedded.Prelude.{
  ℕ, ◌+◌, ◌≡◌, ◌∙◌, Bool, true, false, Option, none, some, arith, Text, codes,
}
use dsp_embedded.Json.{CJson, replace_string, json_print}
use dsp_embedded.Json.Accounts.{
  Accounting, Made, Moved, Balanced, replace_string-Balanced, json_print_frees,
}
use dsp_embedded.Jsonld.{context_url, field_context, field_type, field_process_id, type_catalog}
use dsp_embedded.Build.{
  Built, Partly, then_add, stamp_common, finished, finalise, with_object, with_second, flat, linked,
  attached, nested, catalogued, with_array, with_dataset,
}

module _ (J : CJson) (A : Accounting J) where
  pub then_add-Balanced :
      (l : ℕ) (p : Partly J) (key val : Text)
      → Balanced J A l p
      → Balanced J A l (then_add J p key val)
  unfolding then_add
  then_add-Balanced l (false, o, h) key val b = b
  then_add-Balanced l (true, o, h) key val b = replace_string-Balanced J A l h o key val b

  stamp_common-Balanced :
      (l : ℕ) (h : J.Heap) (o : J.Node) (type_ : Text)
      → A.live h ≡ l + A.size o
      → Balanced J A l (stamp_common J h o type_)
  unfolding stamp_common
  stamp_common-Balanced l h o type_ e =
      then_add-Balanced l (replace_string J h o field_context context_url) field_type type_
        (replace_string-Balanced J A l h o field_context context_url e)

  -- The two fields of every message, and one more.
  pub stamped-Balanced :
      (l : ℕ) (h : J.Heap) (o : J.Node) (type_ key val : Text)
      → A.live h ≡ l + A.size o
      → Balanced J A l (then_add J (stamp_common J h o type_) key val)
  stamped-Balanced l h o type_ key val e =
      then_add-Balanced l (stamp_common J h o type_) key val (stamp_common-Balanced l h o type_ e)

  finished_frees :
      (l : ℕ) (o : J.Node) (r : Bool × Option Text × J.Heap)
      → A.live r.2 ≡ l + A.size o
      → A.live (finished J o r).2 ≡ l
  finished_frees l o (true, text, h) e = omega (arith, A.delete_frees h o, e)
  finished_frees l o (false, text, h) e = omega (arith, A.delete_frees h o, e)

  finalise_frees :
      (l : ℕ) (h : J.Heap) (o : J.Node) (out : Text) (cap : ℕ)
      → A.live h ≡ l + A.size o
      → A.live (finalise J h o out cap).2 ≡ l
  unfolding finalise
  finalise_frees l h o out cap e =
      finished_frees l o (json_print J h (some o) (some out) cap)
        (json_print_frees J A h o out cap ∙ e)

  pub flat_frees :
      (l : ℕ) (p : Partly J) (out : Text) (cap : ℕ)
      → Balanced J A l p
      → A.live (flat J p out cap).2 ≡ l
  unfolding flat
  flat_frees l (false, o, h) out cap b = omega (arith, A.delete_frees h o, b)
  flat_frees l (true, o, h) out cap b = finalise_frees l h o out cap b

  both_deleted :
      (l : ℕ) (h : J.Heap) (a o : J.Node)
      → A.live h ≡ l + A.size a + A.size o
      → A.live (J.delete (J.delete h a) o) ≡ l
  both_deleted l h a o e = omega (arith, A.delete_frees h a, A.delete_frees (J.delete h a) o, e)

  linked_frees :
      (l : ℕ) (h : J.Heap) (o a : J.Node) (p : Partly J) (out : Text) (cap : ℕ)
      → A.live h ≡ l + A.size a + A.size o
      → Moved J A.live A.size h o a p
      → A.live (linked J a p out cap).2 ≡ l
  unfolding linked
  linked_frees l h o a (false, o', h') out cap e m =
      both_deleted l h' a o' (omega (arith, e, m.0, m.1))
  linked_frees l h o a (true, o', h') out cap e m =
      finalise_frees l h' o' out cap (omega (arith, e, m))

  attached_frees :
      (l : ℕ) (a : J.Node) (key : Text) (p : Partly J) (out : Text) (cap : ℕ)
      → Balanced J A (l + A.size a) p
      → A.live (attached J a key p out cap).2 ≡ l
  unfolding attached
  attached_frees l a key (false, o, h) out cap b = both_deleted l h a o b
  attached_frees l a key (true, o, h) out cap b =
      linked_frees l h o a (J.add_item h o key a) out cap b (A.add_item-Moved h o key a)

  pub nested_frees :
      (l : ℕ) (o : J.Node) (type_ pid key : Text) (p : Partly J) (out : Text) (cap : ℕ)
      → Balanced J A (l + A.size o) p
      → A.live (nested J o type_ pid key p out cap).2 ≡ l
  unfolding nested
  nested_frees l o type_ pid key (false, a, h) out cap b = both_deleted l h a o (omega (arith, b))
  nested_frees l o type_ pid key (true, a, h) out cap b =
      attached_frees l a key (then_add J (stamp_common J h o type_) field_process_id pid) out cap
        (stamped-Balanced (l + A.size a) h o type_ field_process_id pid (omega (arith, b)))

  catalogued_frees :
      (l : ℕ) (h : J.Heap) (o ds arr : J.Node) (title : Text) (p : Partly J) (out : Text) (cap : ℕ)
      → A.live h ≡ l + A.size o + A.size ds + A.size arr
      → Moved J A.live A.size h arr ds p
      → p.0 ≡ true
      → A.live (catalogued J o title p out cap).2 ≡ l
  unfolding catalogued
  catalogued_frees l h o ds arr title (false, arr', h') out cap e m t = absurd (cc)
  catalogued_frees l h o ds arr title (true, arr', h') out cap e m t =
      attached_frees l arr' (codes "dcat:dataset")
        (then_add J (stamp_common J h' o type_catalog) (codes "dct:title") title) out cap
        (stamped-Balanced (l + A.size arr') h' o type_catalog (codes "dct:title") title
          (omega (arith, e, m)))

  with_array_frees :
      (l : ℕ) (h : J.Heap) (o ds : J.Node) (title : Text) (r : Option J.Node × J.Heap) (out : Text)
      (cap : ℕ)
      → A.live h ≡ l + A.size o + A.size ds
      → Made J A.live A.size h r
      → A.live (with_array J o ds title r out cap).2 ≡ l
  unfolding with_array
  with_array_frees l h o ds title (none, h') out cap e m =
      both_deleted l h' ds o (omega (arith, e, m))
  with_array_frees l h o ds title (some arr, h') out cap e m =
      catalogued_frees l h' o ds arr title (J.add_to_array h' arr ds) out cap (omega (arith, e, m))
        (A.add_to_array-Moved h' arr ds) (A.add_to_array_succeeds h' arr ds)

  pub with_dataset_frees :
      (l : ℕ) (o : J.Node) (title : Text) (p : Partly J) (out : Text) (cap : ℕ)
      → Balanced J A (l + A.size o) p
      → A.live (with_dataset J o title p out cap).2 ≡ l
  unfolding with_dataset
  with_dataset_frees l o title (false, ds, h) out cap b = both_deleted l h ds o (omega (arith, b))
  with_dataset_frees l o title (true, ds, h) out cap b =
      with_array_frees l h o ds title (J.create_array h) out cap (omega (arith, b))
        (A.create_array-Made h)

  pub with_object_frees :
      (h : J.Heap) (r : Option J.Node × J.Heap) (out : Text) (next : J.Node → J.Heap → Built J)
      → Made J A.live A.size h r
      → ((o : J.Node) (h' : J.Heap)
          → A.live h' ≡ A.live h + A.size o
          → A.live (next o h').2 ≡ A.live h)
      → A.live (with_object J r out next).2 ≡ A.live h
  unfolding with_object
  with_object_frees h (none, h') out next m f = m
  with_object_frees h (some o, h') out next m f = f o h' m

  pub with_second_frees :
      (l : ℕ) (h : J.Heap) (o : J.Node) (r : Option J.Node × J.Heap) (out : Text)
      (next : J.Node → J.Heap → Built J)
      → A.live h ≡ l + A.size o
      → Made J A.live A.size h r
      → ((a : J.Node) (h' : J.Heap)
          → A.live h' ≡ l + A.size o + A.size a
          → A.live (next a h').2 ≡ l)
      → A.live (with_second J o r out next).2 ≡ l
  unfolding with_second
  with_second_frees l h o (none, h') out next e m f = omega (arith, A.delete_frees h' o, e, m)
  with_second_frees l h o (some a, h') out next e m f = f a h' (omega (arith, e, m))
