-- ===== src/Build/Agreement.antt =====
-- What is read from the messages that components/dsp_build/dsp_build.c builds, by the validators of
-- components/dsp_msg/dsp_msg.c among others.
use dsp_embedded.Prelude.{
  ℕ, ◌≡◌, ◌≢◌, refl, ap, ◌∙◌, true, false, Option, none, some, List, [], ◌∷◌, arith, Text,
  strcmp_eq, strcmp_eq_iff,
}
use dsp_embedded.Json.{CJson, string_value, is_object_item, replace_string, put, kept}
use dsp_embedded.Json.Documents.{Documented, IfDone}
use dsp_embedded.Jsonld.{
  context_url, field_context, field_type, field_process_id, field_agreement,
  type_contract_agreement,
}
use dsp_embedded.Build.{Partly, then_add, stamp_common, nested, attached}
use dsp_embedded.Build.Delivers.{
  lookup, Sees, Delivers, absent, then_add-Sees, stamp_common-Sees, linked-Delivers,
}

-- The strings of a message about a process.
abbrev pub message_fields : Text → Text → List (Text × Text)
message_fields type_ pid =
    (field_process_id, pid) ∷ (field_type, type_) ∷ (field_context, context_url) ∷ []

module _ (J : CJson) where
  -- The message that the validator of agreements asks for.
  abbrev pub IsAgreement : Text → J.Node → Type 0
  IsAgreement pid n =
      (string_value J (J.get_item n field_context) ≡ some context_url)
      × (string_value J (J.get_item n field_type) ≡ some type_contract_agreement)
      × (string_value J (J.get_item n field_process_id) ≡ some pid)
      × (is_object_item J (J.get_item n field_agreement) ≡ true)

module _ (J : CJson) (D : Documented J) where
  pub stamped-Sees :
      (h : J.Heap) (o : J.Node) (type_ pid : Text)
      → Sees J [] o
      → IfDone J
          (Sees J (message_fields type_ pid))
          (then_add J (stamp_common J h o type_) field_process_id pid)
  unfolding strcmp_eq
  stamped-Sees h o type_ pid s =
      then_add-Sees J D ((field_type, type_) ∷ (field_context, context_url) ∷ [])
        (stamp_common J h o type_) field_process_id pid refl (stamp_common-Sees J D h o type_ s)

  kept-object :
      (item : J.Node) (r : Partly J)
      → IfDone J (λ o. J.is_object o ≡ true) r
      → IfDone J (λ o. J.is_object o ≡ true) (kept J item r)
  kept-object item (false, o, h) d = tt
  kept-object item (true, o, h) d = d

  put-object :
      (o : J.Node) (key : Text) (r : Option J.Node × J.Heap)
      → J.is_object o ≡ true
      → IfDone J (λ x. J.is_object x ≡ true) (put J o key r)
  put-object o key (none, h) b = tt
  put-object o key (some item, h) b =
      kept-object item (J.add_item h o key item) (D.add_item_object h o key item b)

  pub replace_string-object :
      (h : J.Heap) (o : J.Node) (key val : Text)
      → J.get_item o key ≡ none
      → J.is_object o ≡ true
      → IfDone J (λ x. J.is_object x ≡ true) (replace_string J h o key val)
  unfolding replace_string
  replace_string-object h o key val n b =
      let d = J.delete_item h o key in
      put-object d.0 key (J.create_string d.1 val)
        (ap J.is_object (D.delete_item_absent h o key n) ∙ b)

  pub then_add-object :
      (fs : List (Text × Text)) (p : Partly J) (key val : Text)
      → lookup fs key ≡ none
      → IfDone J (Sees J fs) p
      → IfDone J (λ o. J.is_object o ≡ true) p
      → IfDone J (λ o. J.is_object o ≡ true) (then_add J p key val)
  unfolding then_add
  then_add-object fs (false, o, h) key val n s b = tt
  then_add-object fs (true, o, h) key val n s b =
      replace_string-object h o key val (absent J D fs o key n s) b

  distinct : (a b : Text) → strcmp_eq a b ≡ false → a ≢ b
  distinct a b n e = absurd (ground (arith, n, (strcmp_eq_iff a b).1 e))

  item-IsAgreement :
      (pid : Text) (o a : J.Node) (r : Partly J)
      → J.is_object a ≡ true
      → Sees J (message_fields type_contract_agreement pid) o
      → IfDone J (λ x. J.get_item x field_agreement ≡ some a) r
      → IfDone J
          (λ x. (other : Text) → other ≢ field_agreement → J.get_item x other ≡ J.get_item o other)
          r
      → IfDone J (IsAgreement J pid) r
  unfolding strcmp_eq
  item-IsAgreement pid o a (false, o', h) b s found others = tt
  item-IsAgreement pid o a (true, o', h) b s found others = (
    ap (string_value J) (others field_context (distinct field_context field_agreement refl))
        ∙ s field_context,
    ap (string_value J) (others field_type (distinct field_type field_agreement refl))
        ∙ s field_type,
    ap (string_value J) (others field_process_id (distinct field_process_id field_agreement refl))
        ∙ s field_process_id,
    ap (is_object_item J) found ∙ b,
  )

  attached-IsAgreement :
      (pid : Text) (a : J.Node) (p : Partly J) (out : Text) (cap : ℕ)
      → J.is_object a ≡ true
      → IfDone J (Sees J (message_fields type_contract_agreement pid)) p
      → Delivers J (IsAgreement J pid) cap (attached J a field_agreement p out cap)
  unfolding attached strcmp_eq
  attached-IsAgreement pid a (false, o, h) out cap b s = λ text ok there. absurd (cc)
  attached-IsAgreement pid a (true, o, h) out cap b s =
      linked-Delivers J D (IsAgreement J pid) a (J.add_item h o field_agreement a) out cap (
        item-IsAgreement pid o a (J.add_item h o field_agreement a) b s
          (D.add_item_found h o field_agreement a
            (absent J D (message_fields type_contract_agreement pid) o field_agreement refl s))
          (D.add_item_others h o field_agreement a))

  pub nested-IsAgreement :
      (pid : Text) (o : J.Node) (p : Partly J) (out : Text) (cap : ℕ)
      → Sees J [] o
      → IfDone J (λ a. J.is_object a ≡ true) p
      → Delivers J
          (IsAgreement J pid)
          cap
          (nested J o type_contract_agreement pid field_agreement p out cap)
  unfolding nested
  nested-IsAgreement pid o (false, a, h) out cap s b = λ text ok there. absurd (cc)
  nested-IsAgreement pid o (true, a, h) out cap s b =
      attached-IsAgreement pid a
        (then_add J (stamp_common J h o type_contract_agreement) field_process_id pid) out cap b
        (stamped-Sees h o type_contract_agreement pid s)
