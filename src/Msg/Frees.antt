-- ===== src/Msg/Frees.antt =====
-- The validators of components/dsp_msg/dsp_msg.c and the heap of cJSON.
use dsp_embedded.Prelude.{
  ℕ, ◌+◌, ◌≡◌, inl, inr, Bool, not, ◌&&◌, Option, none, some, [], arith, Bool-cases, Text,
}
use dsp_embedded.Json.{CJson, get_context, string_value, is_string_item, is_filled}
use dsp_embedded.Json.Accounts.{Accounting, Made}
use dsp_embedded.Jsonld.{field_context, field_type}
use dsp_embedded.Msg.{
  MsgErr, is_type, check_parsed, check_tree, check_common, check_fields, validate_catalog_request,
  validate_offer, validate_agreement, validate_transfer_request,
}
use dsp_embedded.Msg.Verdict.{
  Kind, catalog_request, offer, agreement, transfer_request, type_of, has_fields, validate, Verdict,
  validate-Verdict,
}

module _ (J : CJson) (A : Accounting J) where
  -- The message that the caller must delete is what is allocated beyond `l` blocks.
  abbrev Owed : ℕ → MsgErr × Option J.Node × J.Heap → Type 0
  Owed l (rc, none, h) = A.live h ≡ l
  Owed l (rc, some n, h) = A.live h ≡ l + A.size n

  deleted : (l : ℕ) (h : J.Heap) (n : J.Node) → A.live h ≡ l + A.size n → A.live (J.delete h n) ≡ l
  deleted l h n e = omega (arith, A.delete_frees h n, e)

  check_parsed-Owed :
      (l : ℕ) (h : J.Heap) (n : J.Node) (expected : Text)
      → A.live h ≡ l + A.size n
      → Owed l (check_parsed J h n expected)
  unfolding check_parsed
  check_parsed-Owed l h n expected e =
      let ctx_item = J.get_item n field_context in
      elim (Bool-cases
        (not (get_context J (some n) (some []) 8).0 && not (is_string_item J ctx_item))) [
          | inl a ↦ rw a (deleted l h n e)
          | inr a ↦ elim (Bool-cases (not (is_filled J (string_value J ctx_item)))) [
            | inl b ↦ rw (a, b) (deleted l h n e)
            | inr b ↦
                elim (Bool-cases
                  (not (is_type expected (string_value J (J.get_item n field_type))))) [
                    | inl c ↦ rw (a, b, c) (deleted l h n e)
                    | inr c ↦ rw (a, b, c) e
                  ]
          ]
        ]

  check_tree-Owed :
      (h : J.Heap) (expected : Text) (r : Option J.Node × J.Heap)
      → Made J A.live A.size h r
      → Owed (A.live h) (check_tree J expected r)
  check_tree-Owed h expected (none, h') m = m
  check_tree-Owed h expected (some n, h') m = check_parsed-Owed (A.live h) h' n expected m

  check_fields_frees :
      (l : ℕ) (fields : J.Node → Bool) (r : MsgErr × Option J.Node × J.Heap)
      → Owed l r
      → A.live (check_fields J fields r).1 ≡ l
  check_fields_frees l fields (rc, none, h) o = o
  check_fields_frees l fields (rc, some n, h) o = elim (Bool-cases (fields n)) [
    | inl e ↦ rw e (deleted l h n o)
    | inr e ↦ rw e (deleted l h n o)
  ]

  tree_frees :
      (k : Kind) (h : J.Heap) (json : Text)
      → A.live (check_fields J (has_fields J k) (check_tree J (type_of k) (J.parse h json))).1
        ≡ A.live h
  tree_frees k h json =
      check_fields_frees (A.live h) (has_fields J k) (check_tree J (type_of k) (J.parse h json))
        (check_tree-Owed h (type_of k) (J.parse h json) (A.parse-Made h json))

  pub validate_frees :
      (k : Kind) (h : J.Heap) (json : Text) → A.live (validate J k h (some json)).1 ≡ A.live h
  unfolding validate check_common validate_catalog_request validate_offer validate_agreement
      validate_transfer_request
  validate_frees catalog_request h json = tree_frees catalog_request h json
  validate_frees offer h json = tree_frees offer h json
  validate_frees agreement h json = tree_frees agreement h json
  validate_frees transfer_request h json = tree_frees transfer_request h json

  -- Every validator answers by the first failing test: the parse, a non-empty `@context`, its own
  -- `@type`, its mandatory fields; and it leaves as many blocks allocated as it found.
  pub validate_lem :
      (k : Kind) (h : J.Heap) (json : Text)
      → Verdict J k (J.parse h json).0 (validate J k h (some json)).0
        × (A.live (validate J k h (some json)).1 ≡ A.live h)
  validate_lem k h json = (validate-Verdict J k h json, validate_frees k h json)
