-- ===== src/Msg/Verdict.antt =====
-- What each validator of components/dsp_msg/dsp_msg.c answers, on every branch, and what it leaves on
-- the heap.
use dsp_embedded.Prelude.{
  ◌≡◌, ◌≢◌, ◌↔◌, refl, ap, inl, inr, Bool, true, false, not, ◌&&◌, Option, none, some, [], arith,
  if◌then◌else◌, Bool-cases, Text, strcmp_eq_iff,
}
use dsp_embedded.Json.{CJson, get_context, string_value, is_string_item, is_filled}
use dsp_embedded.Jsonld.{
  field_context, field_type, field_process_id, field_offer, field_agreement, field_dataset,
  type_catalog_request, type_contract_offer, type_contract_agreement, type_transfer_request,
}
use dsp_embedded.Msg.{
  MsgErr, msg_ok, parse_failed, missing_context, wrong_type, missing_field, is_type, check_parsed,
  check_tree, check_common, check_fields, has_string_field, has_object_field,
  validate_catalog_request, validate_offer, validate_agreement, validate_transfer_request,
}

-- The messages that a validator exists for.
pub data Kind : Type 0 where
  catalog_request offer agreement transfer_request : Kind

abbrev pub type_of : Kind → Text
type_of catalog_request = type_catalog_request
type_of offer = type_contract_offer
type_of agreement = type_contract_agreement
type_of transfer_request = type_transfer_request

module _ (J : CJson) where
  -- The mandatory fields beside `@context` and `@type`.
  abbrev pub has_fields : Kind → J.Node → Bool
  has_fields catalog_request n = true
  has_fields offer n = has_string_field J n field_process_id && has_object_field J n field_offer
  has_fields agreement n =
      has_string_field J n field_process_id && has_object_field J n field_agreement
  has_fields transfer_request n =
      has_string_field J n field_process_id && has_string_field J n field_dataset

  unfoldable pub validate : Kind → J.Heap → Option Text → MsgErr × J.Heap
  validate catalog_request h json = validate_catalog_request J h json
  validate offer h json = validate_offer J h json
  validate agreement h json = validate_agreement J h json
  validate transfer_request h json = validate_transfer_request J h json

  -- The answer for what the parser made of the text.
  pub data Verdict (k : Kind) : Option J.Node → MsgErr → Type 0 where
    unparsed : Verdict k none parse_failed
    no_context :
        (n : J.Node)
        → is_filled J (string_value J (J.get_item n field_context)) ≡ false
        → Verdict k (some n) missing_context
    other_type :
        (n : J.Node)
        → is_filled J (string_value J (J.get_item n field_context)) ≡ true
        → string_value J (J.get_item n field_type) ≢ some (type_of k)
        → Verdict k (some n) wrong_type
    lacks_field :
        (n : J.Node)
        → is_filled J (string_value J (J.get_item n field_context)) ≡ true
        → string_value J (J.get_item n field_type) ≡ some (type_of k)
        → has_fields k n ≡ false
        → Verdict k (some n) missing_field
    valid :
        (n : J.Node)
        → is_filled J (string_value J (J.get_item n field_context)) ≡ true
        → string_value J (J.get_item n field_type) ≡ some (type_of k)
        → has_fields k n ≡ true
        → Verdict k (some n) msg_ok

  is_type_iff :
      (expected : Text) (s : Option Text) → (is_type expected s ≡ true) ↔ (s ≡ some expected)
  is_type_iff expected none = (λ e. absurd (cc), λ e. absurd (cc))
  is_type_iff expected (some s) =
      (λ e. ap some ((strcmp_eq_iff s expected).0 e), λ e. (strcmp_eq_iff s expected).1 (cc))

  -- A context that is there and not empty is a string, so the first test of `check_common` passes.
  filled-is_string :
      (item : Option J.Node)
      → is_filled J (string_value J item) ≡ true
      → is_string_item J item ≡ true
  filled-is_string none e = absurd (cc)
  filled-is_string (some n) e = elim (Bool-cases (J.is_string n)) [
    | inl b ↦ b
    | inr b ↦ absurd (ground (arith, e, b))
  ]

  and_false : (b : Bool) → (b && false) ≡ false
  and_false b = ground arith

  -- Without a context, both tests give the same error.
  parsed-no_context :
      (h : J.Heap) (n : J.Node) (expected : Text)
      → is_filled J (string_value J (J.get_item n field_context)) ≡ false
      → check_parsed J h n expected ≡ (missing_context, none, J.delete h n)
  unfolding check_parsed
  parsed-no_context h n expected empty =
      let ctx_item = J.get_item n field_context in
      elim (Bool-cases
        (not (get_context J (some n) (some []) 8).0 && not (is_string_item J ctx_item))) [
          | inl e ↦ rw e refl
          | inr e ↦ simp (e, empty, check_parsed)
        ]

  parsed-context :
      (h : J.Heap) (n : J.Node) (expected : Text) (b : Bool)
      → is_filled J (string_value J (J.get_item n field_context)) ≡ true
      → is_type expected (string_value J (J.get_item n field_type)) ≡ b
      → check_parsed J h n expected
        ≡ (if b then (msg_ok, some n, h) else (wrong_type, none, J.delete h n))
  unfolding check_parsed
  parsed-context h n expected b filled same =
      let is_str = filled-is_string (J.get_item n field_context) filled in
      let c = not (get_context J (some n) (some []) 8).0 in
      elim (Bool-cases b) [
        | inl e ↦ simp (is_str, and_false c, filled, same, e, check_parsed)
        | inr e ↦ simp (is_str, and_false c, filled, same, e, check_parsed)
      ]

  parsed-Verdict :
      (k : Kind) (h : J.Heap) (n : J.Node)
      → Verdict k (some n) (check_fields J (has_fields k) (check_parsed J h n (type_of k))).0
  parsed-Verdict k h n =
      let type_ = string_value J (J.get_item n field_type) in
      elim (Bool-cases (is_filled J (string_value J (J.get_item n field_context)))) [
        | inr empty ↦ rw (parsed-no_context h n (type_of k) empty) (no_context n empty)
        | inl filled ↦ elim (Bool-cases (is_type (type_of k) type_)) [
          | inr other ↦ rw (parsed-context h n (type_of k) false filled other) (
              other_type n filled
                (λ e. absurd (ground (arith, other, (is_type_iff (type_of k) type_).1 e))))
          | inl same ↦
              let typed = (is_type_iff (type_of k) type_).0 same in
              rw (parsed-context h n (type_of k) true filled same)
                (elim (Bool-cases (has_fields k n)) [
                  | inl f ↦ rw f (valid n filled typed f)
                  | inr f ↦ rw f (lacks_field n filled typed f)
                ])
        ]
      ]

  tree-Verdict :
      (k : Kind) (r : Option J.Node × J.Heap)
      → Verdict k r.0 (check_fields J (has_fields k) (check_tree J (type_of k) r)).0
  tree-Verdict k (none, h) = unparsed
  tree-Verdict k (some n, h) = parsed-Verdict k h n

  pub validate-Verdict :
      (k : Kind) (h : J.Heap) (json : Text)
      → Verdict k (J.parse h json).0 (validate k h (some json)).0
  unfolding validate check_common validate_catalog_request validate_offer validate_agreement
      validate_transfer_request
  validate-Verdict catalog_request h json = tree-Verdict catalog_request (J.parse h json)
  validate-Verdict offer h json = tree-Verdict offer (J.parse h json)
  validate-Verdict agreement h json = tree-Verdict agreement (J.parse h json)
  validate-Verdict transfer_request h json = tree-Verdict transfer_request (J.parse h json)
