-- ===== src/Build/Tests.antt =====
-- dsp_build at concrete inputs.
use dsp_embedded.Prelude.{◌≡◌, ◌<◌, strcmp_eq, refl, true, some, [], Text, arith, length, codes}
use dsp_embedded.Json.{get_string, new_object, json_print, replace_string}
use dsp_embedded.Json.Model.{
  Allocator, trees, Tree, str, no_field, field, granted_node, blocks, put_field, printed, parsed,
  unquoted, quoted, print_tree, parse_tree, without,
}
use dsp_embedded.Json.Model.Accounts.{trees-Accounting}
use dsp_embedded.Json.Model.Documents.{trees-Documented}
use dsp_embedded.Jsonld.{
  field_context, context_url, field_type, field_id, field_process_id, field_agreement,
  type_contract_agreement, type_negotiation_event, state_offered,
}
use dsp_embedded.Msg.{msg_ok, validate_agreement}
use dsp_embedded.Build.{
  alloc_failed, build_agreement_msg, build_negotiation_event, with_object, with_second, nested,
  then_add, stamp_common, attached, linked, finalise, flat,
}
use dsp_embedded.Build.Frees.{agreement, build, build_frees}
use dsp_embedded.Build.Accepted.{
  validate_agreement-build_agreement_msg, get_string-build_negotiation_event,
}

abbrev heap : Allocator
heap = record { granted = 40; allocated = 7 }

-- The fifth allocation fails.
abbrev scarce : Allocator
scarce = record { granted = 4; allocated = 7 }

abbrev pid : Text
pid = codes "p1"

abbrev id : Text
id = codes "a7"

build_frees_example :
    trees-Accounting.live (build trees scarce (some []) 1024 (agreement (some pid) (some id))).2
    ≡ trees-Accounting.live scarce
build_frees_example =
    build_frees trees trees-Accounting scarce (some []) 1024 (agreement (some pid) (some id))

test_scarce :
    (build_agreement_msg trees scarce (some []) 1024 (some pid) (some id)).0 ≡ alloc_failed
unfolding build_agreement_msg with_object with_second nested then_add stamp_common attached linked
    finalise new_object replace_string json_print granted_node blocks put_field
test_scarce = refl

abbrev base : Text → Tree
base type_ =
    field field_process_id (str pid)
      (field field_type (str type_) (field field_context (str context_url) no_field))

abbrev agreement_tree : Tree
agreement_tree =
    field field_agreement
      (field field_id (str id) (field field_type (str (codes "odrl:Agreement")) no_field))
      (base type_contract_agreement)

abbrev event_tree : Tree
event_tree = field (codes "dspace:eventType") (str state_offered) (base type_negotiation_event)

abbrev agreement_text : Text
agreement_text = printed agreement_tree []

abbrev event_text : Text
event_text = printed event_tree []

validate_agreement-build_agreement_msg_example :
    (length agreement_text < 1024)
    × ((validate_agreement trees heap (some agreement_text)).0 ≡ msg_ok)
unfolding build_agreement_msg with_object with_second nested then_add stamp_common attached linked
    finalise new_object replace_string json_print granted_node blocks put_field print_tree printed
    quoted without parse_tree parsed unquoted strcmp_eq
validate_agreement-build_agreement_msg_example =
    validate_agreement-build_agreement_msg trees trees-Documented heap heap [] 1024 pid id
      agreement_text agreement_tree refl refl refl refl

get_string-build_negotiation_event_example :
    (length event_text < 1024)
    × (get_string trees (some event_tree) (some field_process_id) (some []) 64 ≡ (true, some pid))
    × (get_string trees (some event_tree) (some (codes "dspace:eventType")) (some []) 64
        ≡ (true, some state_offered))
unfolding build_negotiation_event with_object flat then_add stamp_common finalise new_object
    replace_string json_print granted_node blocks put_field print_tree printed quoted without
    parse_tree parsed unquoted strcmp_eq
get_string-build_negotiation_event_example =
    get_string-build_negotiation_event trees trees-Documented heap heap [] 1024 pid state_offered
      event_text event_tree [] 64 refl refl refl (omega arith) (omega arith)
