-- ===== src/Msg/Tests.antt =====
-- dsp_msg at concrete inputs.
use dsp_embedded.Prelude.{◌≡◌, refl, some, [], Text, codes, strcmp_eq}
use dsp_embedded.Json.{get_string, get_context}
use dsp_embedded.Json.Model.{
  Allocator, trees, Tree, str, no_field, field, printed, quoted, parsed, unquoted, parse_tree,
  granted_node, blocks, find,
}
use dsp_embedded.Json.Model.Accounts.{trees-Accounting}
use dsp_embedded.Jsonld.{
  field_context, field_type, field_process_id, context_url, type_transfer_request,
}
use dsp_embedded.Msg.{missing_field, validate_transfer_request, check_common, check_parsed}
use dsp_embedded.Msg.Verdict.{transfer_request, validate, Verdict}
use dsp_embedded.Msg.Frees.{validate_lem}

abbrev heap : Allocator
heap = record { granted = 40; allocated = 7 }

-- A request without its dataset.
abbrev incomplete : Tree
incomplete =
    field field_process_id (str (codes "p1")) (
      field field_type (str type_transfer_request) (field field_context (str context_url) no_field))

abbrev text : Text
text = printed incomplete []

test_incomplete : (validate_transfer_request trees heap (some text)).0 ≡ missing_field
unfolding validate_transfer_request check_common check_parsed printed quoted parsed unquoted
    parse_tree granted_node blocks find get_context get_string strcmp_eq
test_incomplete = refl

validate_lem_example :
    Verdict trees transfer_request
      (trees.parse heap text).0
      (validate trees transfer_request heap (some text)).0
    × (trees-Accounting.live (validate trees transfer_request heap (some text)).1
        ≡ trees-Accounting.live heap)
validate_lem_example = validate_lem trees trees-Accounting transfer_request heap text
