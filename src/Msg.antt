-- ===== src/Msg.antt =====
-- components/dsp_msg/dsp_msg.c: the validators of incoming messages, over cJSON.
use dsp_embedded.Prelude.{
  ℕ, ◌≡◌, Bool, true, false, not, ◌&&◌, ◌||◌, Option, none, some, List, [], ◌∷◌, if◌then◌else◌, ltb,
  length, Text, strcmp_eq,
}
use dsp_embedded.Json.{CJson, get_context, string_value, is_string_item, is_object_item, is_filled}
use dsp_embedded.Jsonld.{
  field_context, field_type, field_process_id, field_offer, field_agreement, field_dataset,
  type_catalog_request, type_contract_offer, type_contract_agreement, type_transfer_request,
}
pub mod Verdict
pub mod Frees
mod Tests

-- `dsp_msg_err_t`.
pub data MsgErr : Type 0 where
  msg_ok null_input parse_failed missing_context wrong_type missing_field : MsgErr

-- `type_item->valuestring && strcmp(type_item->valuestring, expected_type) == 0`.
abbrev pub is_type : Text → Option Text → Bool
is_type expected none = false
is_type expected (some s) = strcmp_eq s expected

module _ (J : CJson) where
  -- The checks of `check_common` on a parsed message. The result is the error, the message that the
  -- caller must delete, and the heap. `ctx_buf` has eight bytes; what it holds is not used.
  pub check_parsed : J.Heap → J.Node → Text → MsgErr × Option J.Node × J.Heap
  check_parsed h obj expected =
      let ctx_item = J.get_item obj field_context in
      if not (get_context J (some obj) (some []) 8).0 && not (is_string_item J ctx_item)
      then (missing_context, none, J.delete h obj)
      else if not (is_filled J (string_value J ctx_item))
      then (missing_context, none, J.delete h obj)
      else if not (is_type expected (string_value J (J.get_item obj field_type)))
      then (wrong_type, none, J.delete h obj)
      else (msg_ok, some obj, h)

  abbrev pub check_tree : Text → Option J.Node × J.Heap → MsgErr × Option J.Node × J.Heap
  check_tree expected (none, h) = (parse_failed, none, h)
  check_tree expected (some obj, h) = check_parsed h obj expected

  pub check_common : J.Heap → Option Text → Text → MsgErr × Option J.Node × J.Heap
  check_common h none expected = (null_input, none, h)
  check_common h (some json) expected = check_tree expected (J.parse h json)

  abbrev pub has_string_field : J.Node → Text → Bool
  has_string_field obj key = is_filled J (string_value J (J.get_item obj key))

  abbrev pub has_object_field : J.Node → Text → Bool
  has_object_field obj key = is_object_item J (J.get_item obj key)

  -- What the validators make of the result of `check_common`: the mandatory fields are there or
  -- not, and the message is deleted.
  abbrev pub check_fields : (J.Node → Bool) → MsgErr × Option J.Node × J.Heap → MsgErr × J.Heap
  check_fields fields (rc, none, h) = (rc, h)
  check_fields fields (rc, some obj, h) =
      if not (fields obj) then (missing_field, J.delete h obj) else (msg_ok, J.delete h obj)

  pub validate_catalog_request : J.Heap → Option Text → MsgErr × J.Heap
  validate_catalog_request h json =
      check_fields (λ obj. true) (check_common h json type_catalog_request)

  pub validate_offer : J.Heap → Option Text → MsgErr × J.Heap
  validate_offer h json =
      check_fields
        (λ obj. has_string_field obj field_process_id && has_object_field obj field_offer)
        (check_common h json type_contract_offer)

  pub validate_agreement : J.Heap → Option Text → MsgErr × J.Heap
  validate_agreement h json =
      check_fields
        (λ obj. has_string_field obj field_process_id && has_object_field obj field_agreement)
        (check_common h json type_contract_agreement)

  pub validate_transfer_request : J.Heap → Option Text → MsgErr × J.Heap
  validate_transfer_request h json =
      check_fields
        (λ obj. has_string_field obj field_process_id && has_string_field obj field_dataset)
        (check_common h json type_transfer_request)
