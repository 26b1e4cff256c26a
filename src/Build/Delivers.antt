-- ===== src/Build/Delivers.antt =====
-- The fields of an object that components/dsp_build/dsp_build.c builds, and what a parser reads back
-- from its text.
use dsp_embedded.Prelude.{
  ℕ, ◌<◌, ◌≡◌, ◌≢◌, refl, subst, sym, ap, ◌∙◌, inl, inr, true, false, Option, none, some, List, [],
  ◌∷◌, arith, if◌then◌else◌, ◌==◌, ltb, length, Bool-cases, Text, strcmp_eq, strcmp_eq_iff,
  strcmp_eq_refl,
}
use dsp_embedded.Json.{CJson, string_value, replace_string, put, kept, json_print, delivered}
use dsp_embedded.Json.Documents.{Documented, IfMade, IfDone}
use dsp_embedded.Jsonld.{context_url, field_context, field_type}
use dsp_embedded.Build.{
  Built, Partly, build_ok, then_add, stamp_common, finished, finalise, with_object, with_second,
  flat, linked,
}

-- The value of the first field with the key.
abbrev pub lookup : List (Text × Text) → Text → Option Text
lookup [] key = none
lookup (f ∷ fs) key = if strcmp_eq f.0 key then some f.1 else lookup fs key

module _ (J : CJson) where
  abbrev pub Agrees : Option Text → Option J.Node → Type 0
  Agrees none item = item ≡ none
  Agrees (some s) item = string_value J item ≡ some s

  -- An object whose items are these strings.
  abbrev pub Sees : List (Text × Text) → J.Node → Type 0
  Sees fs o = (key : Text) → Agrees (lookup fs key) (J.get_item o key)

  -- If the builder succeeded, its text fits the buffer with its NUL, and whatever is parsed from it
  -- has the property.
  abbrev pub Delivers : (J.Node → Type 0) → ℕ → Built J → Type 0
  Delivers P cap r =
      (text : Text)
      → r.0 ≡ build_ok
      → r.1 ≡ some text
      → (length text < cap) × ((h : J.Heap) → IfMade J P (J.parse h text))

module _ (J : CJson) (D : Documented J) where
  string_value_holds :
      (item : J.Node) (s : Text)
      → J.is_string item ≡ true
      → J.valuestring item ≡ some s
      → string_value J (some item) ≡ some s
  string_value_holds item s e f = rw e f

  added-Sees :
      (fs : List (Text × Text)) (o o' item : J.Node) (key val : Text)
      → string_value J (some item) ≡ some val
      → J.get_item o' key ≡ some item
      → ((other : Text) → other ≢ key → J.get_item o' other ≡ J.get_item o other)
      → Sees J fs o
      → Sees J ((key, val) ∷ fs) o'
  added-Sees fs o o' item key val holds found others s k = elim (Bool-cases (strcmp_eq key k)) [
    | inl e ↦
        let same : key ≡ k = (strcmp_eq_iff key k).0 e in
        rw e (
          ap (λ x. string_value J (J.get_item o' x)) (sym same) ∙ ap (string_value J) found ∙ holds)
    | inr e ↦ rw e (
        subst (Agrees J (lookup fs k))
          (sym (others k (λ same. absurd (ground (arith, e, same, strcmp_eq_refl key))))) (s k))
  ]

  kept-Sees :
      (fs : List (Text × Text)) (o item : J.Node) (key val : Text) (r : Partly J)
      → string_value J (some item) ≡ some val
      → IfDone J (λ o'. J.get_item o' key ≡ some item) r
      → IfDone J (λ o'. (other : Text) → other ≢ key → J.get_item o' other ≡ J.get_item o other) r
      → Sees J fs o
      → IfDone J (Sees J ((key, val) ∷ fs)) (kept J item r)
  kept-Sees fs o item key val (false, o', h) holds found others s = tt
  kept-Sees fs o item key val (true, o', h) holds found others s =
      added-Sees fs o o' item key val holds found others s

  put-Sees :
      (fs : List (Text × Text)) (o : J.Node) (key val : Text) (r : Option J.Node × J.Heap)
      → IfMade J (λ n. (J.is_string n ≡ true) × (J.valuestring n ≡ some val)) r
      → J.get_item o key ≡ none
      → Sees J fs o
      → IfDone J (Sees J ((key, val) ∷ fs)) (put J o key r)
  put-Sees fs o key val (none, h) made free s = tt
  put-Sees fs o key val (some item, h) made free s =
      kept-Sees fs o item key val (J.add_item h o key item)
        (string_value_holds item val made.0 made.1) (D.add_item_found h o key item free)
        (D.add_item_others h o key item) s

  pub absent :
      (fs : List (Text × Text)) (o : J.Node) (key : Text)
      → lookup fs key ≡ none
      → Sees J fs o
      → J.get_item o key ≡ none
  absent fs o key n s = subst (λ x. Agrees J x (J.get_item o key)) n (s key)

  pub replace_string-Sees :
      (fs : List (Text × Text)) (h : J.Heap) (o : J.Node) (key val : Text)
      → lookup fs key ≡ none
      → Sees J fs o
      → IfDone J (Sees J ((key, val) ∷ fs)) (replace_string J h o key val)
  unfolding replace_string
  replace_string-Sees fs h o key val n s =
      let d = J.delete_item h o key in
      let same = D.delete_item_absent h o key (absent fs o key n s) in
      put-Sees fs d.0 key val (J.create_string d.1 val) (D.create_string_holds d.1 val)
        (ap (λ x. J.get_item x key) same ∙ absent fs o key n s) (subst (Sees J fs) (sym same) s)

  pub then_add-Sees :
      (fs : List (Text × Text)) (p : Partly J) (key val : Text)
      → lookup fs key ≡ none
      → IfDone J (Sees J fs) p
      → IfDone J (Sees J ((key, val) ∷ fs)) (then_add J p key val)
  unfolding then_add
  then_add-Sees fs (false, o, h) key val n s = tt
  then_add-Sees fs (true, o, h) key val n s = replace_string-Sees fs h o key val n s

  pub stamp_common-Sees :
      (h : J.Heap) (o : J.Node) (type_ : Text)
      → Sees J [] o
      → IfDone J
          (Sees J ((field_type, type_) ∷ (field_context, context_url) ∷ []))
          (stamp_common J h o type_)
  unfolding stamp_common strcmp_eq
  stamp_common-Sees h o type_ s =
      then_add-Sees ((field_context, context_url) ∷ [])
        (replace_string J h o field_context context_url) field_type type_ refl
        (replace_string-Sees [] h o field_context context_url refl s)

  -- The message that was printed is what is parsed.
  reparsed :
      (P : J.Node → Type 0) (h : J.Heap) (o : J.Node) (r : Option J.Node × J.Heap)
      → P o
      → IfMade J (λ n. n ≡ o) r
      → IfMade J P r
  reparsed P h o (none, h') p m = tt
  reparsed P h o (some n, h') p m = subst P (sym m) p

  delivered_lem :
      (P : J.Node → Type 0) (o : J.Node) (cap : ℕ) (r : Option Text × J.Heap)
      → P o
      → ((text : Text) → r.0 ≡ some text → (h : J.Heap) → IfMade J (λ n. n ≡ o) (J.parse h text))
      → Delivers J P cap (finished J o (delivered J cap r))
  delivered_lem P o cap (none, h) p again = λ text ok there. absurd (cc)
  delivered_lem P o cap (some s, h) p again = elim (Bool-cases (ltb (length s) cap)) [
    | inl e ↦ rw e (λ text ok there.
        let same : s ≡ text = ground (arith, there) in
        (
          subst (λ x. length x < cap) same (ground (arith, e)),
          λ h'. reparsed P h' o (J.parse h' text) p (again text (ap some same) h'),
        ))
    | inr e ↦ rw e (λ text ok there. absurd (cc))
  ]

  finalise-Delivers :
      (P : J.Node → Type 0) (h : J.Heap) (o : J.Node) (out : Text) (cap : ℕ)
      → P o
      → Delivers J P cap (finalise J h o out cap)
  unfolding finalise json_print
  finalise-Delivers P h o out cap p = elim (Bool-cases (cap == 0)) [
    | inl e ↦ rw e (λ text ok. absurd (cc))
    | inr e ↦ rw e (
        delivered_lem P o cap (J.print_unformatted h o) p
          (λ text printed h'. D.parse-print h h' o text printed))
  ]

  pub flat-Delivers :
      (P : J.Node → Type 0) (p : Partly J) (out : Text) (cap : ℕ)
      → IfDone J P p
      → Delivers J P cap (flat J p out cap)
  unfolding flat
  flat-Delivers P (false, o, h) out cap p = λ text ok there. absurd (cc)
  flat-Delivers P (true, o, h) out cap p = finalise-Delivers P h o out cap p

  pub linked-Delivers :
      (P : J.Node → Type 0) (a : J.Node) (p : Partly J) (out : Text) (cap : ℕ)
      → IfDone J P p
      → Delivers J P cap (linked J a p out cap)
  unfolding linked
  linked-Delivers P a (false, o, h) out cap p = λ text ok there. absurd (cc)
  linked-Delivers P a (true, o, h) out cap p = finalise-Delivers P h o out cap p

  -- A new object that was there has no item.
  abbrev pub Fresh : J.Node → Type 0
  Fresh o = (J.is_object o ≡ true) × Sees J [] o

  pub with_object-Delivers :
      (P : J.Node → Type 0) (cap : ℕ) (r : Option J.Node × J.Heap) (out : Text)
      (next : J.Node → J.Heap → Built J)
      → IfMade J Fresh r
      → ((o : J.Node) (h : J.Heap) → Fresh o → Delivers J P cap (next o h))
      → Delivers J P cap (with_object J r out next)
  unfolding with_object
  with_object-Delivers P cap (none, h) out next m f = λ text ok there. absurd (cc)
  with_object-Delivers P cap (some o, h) out next m f = f o h m

  pub with_second-Delivers :
      (P : J.Node → Type 0) (cap : ℕ) (o : J.Node) (r : Option J.Node × J.Heap) (out : Text)
      (next : J.Node → J.Heap → Built J)
      → IfMade J Fresh r
      → ((a : J.Node) (h : J.Heap) → Fresh a → Delivers J P cap (next a h))
      → Delivers J P cap (with_second J o r out next)
  unfolding with_second
  with_second-Delivers P cap o (none, h) out next m f = λ text ok there. absurd (cc)
  with_second-Delivers P cap o (some a, h) out next m f = f a h m
