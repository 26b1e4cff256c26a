-- ===== src/Build.antt =====
-- components/dsp_build/dsp_build.c: the builders of outgoing messages, over cJSON. A builder takes
-- the heap, the string that stands in the buffer and the buffer's capacity, and gives the error, the
-- string that stands in the buffer then, and the heap. A tree node belongs to whoever holds it until
-- it is deleted or added to another.
use dsp_embedded.Prelude.{
  ℕ, ◌≡◌, Bool, true, false, Option, none, some, List, [], ◌∷◌, if◌then◌else◌, Text, codes,
}
use dsp_embedded.Json.{CJson, replace_string, new_object, json_print}
use dsp_embedded.Jsonld.{
  context_url, field_context, field_type, field_id, field_process_id, field_code, field_reason,
  field_agreement, field_data_address, type_catalog, type_contract_agreement,
  type_negotiation_event, type_transfer_start, type_transfer_completion, type_error,
}
pub mod Accounts
pub mod Frees
pub mod Delivers
pub mod Agreement
pub mod Accepted
mod Tests

-- `dsp_build_err_t`.
pub data BuildErr : Type 0 where
  build_ok null_arg alloc_failed buf_too_small : BuildErr

module _ (J : CJson) where
  -- The result of a builder.
  abbrev pub Built : Type 0
  Built = BuildErr × Option Text × J.Heap

  -- The object under construction, after a step that may have failed.
  abbrev pub Partly : Type 0
  Partly = Bool × J.Node × J.Heap

  -- `... && dsp_json_add_string(obj, key, val)`.
  pub then_add : Partly → Text → Text → Partly
  then_add (false, o, h) key val = (false, o, h)
  then_add (true, o, h) key val = replace_string J h o key val

  pub stamp_common : J.Heap → J.Node → Text → Partly
  stamp_common h obj type_ =
      then_add (replace_string J h obj field_context context_url) field_type type_

  -- The error for what `dsp_json_print` returned, after the tree is deleted.
  abbrev pub finished : J.Node → Bool × Option Text × J.Heap → Built
  finished o (true, text, h) = (build_ok, text, J.delete h o)
  finished o (false, text, h) = (buf_too_small, text, J.delete h o)

  pub finalise : J.Heap → J.Node → Text → ℕ → Built
  finalise h obj out cap = finished obj (json_print J h (some obj) (some out) cap)

  -- `if (!obj) { return DSP_BUILD_ERR_ALLOC; }` on a new object, and what follows.
  pub with_object : Option J.Node × J.Heap → Text → (J.Node → J.Heap → Built) → Built
  with_object (none, h) out next = (alloc_failed, some out, h)
  with_object (some o, h) out next = next o h

  -- The same for a second object: the first one is deleted.
  pub with_second : J.Node → Option J.Node × J.Heap → Text → (J.Node → J.Heap → Built) → Built
  with_second o (none, h) out next = (alloc_failed, some out, J.delete h o)
  with_second o (some a, h) out next = next a h

  -- The end of a builder of a message without a nested object.
  pub flat : Partly → Text → ℕ → Built
  flat (false, o, h) out cap = (alloc_failed, some out, J.delete h o)
  flat (true, o, h) out cap = finalise h o out cap

  -- The nested object or array was added, or not.
  pub linked : J.Node → Partly → Text → ℕ → Built
  linked a (false, o, h) out cap = (alloc_failed, some out, J.delete (J.delete h a) o)
  linked a (true, o, h) out cap = finalise h o out cap

  -- The end of a builder of a message with a nested object or array, which goes under the key.
  pub attached : J.Node → Text → Partly → Text → ℕ → Built
  attached a key (false, o, h) out cap = (alloc_failed, some out, J.delete (J.delete h a) o)
  attached a key (true, o, h) out cap = linked a (J.add_item h o key a) out cap

  -- The nested object has its fields, or not; then the message gets its own.
  pub nested : J.Node → Text → Text → Text → Partly → Text → ℕ → Built
  nested o type_ pid key (false, a, h) out cap = (alloc_failed, some out, J.delete (J.delete h a) o)
  nested o type_ pid key (true, a, h) out cap =
      attached a key (then_add (stamp_common h o type_) field_process_id pid) out cap

  -- The array was created and took the dataset, or not; then the catalogue gets its own fields.
  pub catalogued : J.Node → Text → Partly → Text → ℕ → Built
  catalogued o title (false, arr, h) out cap = (alloc_failed, some out, J.delete (J.delete h arr) o)
  catalogued o title (true, arr, h) out cap =
      attached arr (codes "dcat:dataset")
        (then_add (stamp_common h o type_catalog) (codes "dct:title") title) out cap

  pub with_array : J.Node → J.Node → Text → Option J.Node × J.Heap → Text → ℕ → Built
  with_array o ds title (none, h) out cap = (alloc_failed, some out, J.delete (J.delete h ds) o)
  with_array o ds title (some arr, h) out cap = catalogued o title (J.add_to_array h arr ds) out cap

  pub with_dataset : J.Node → Text → Partly → Text → ℕ → Built
  with_dataset o title (false, ds, h) out cap = (alloc_failed, some out, J.delete (J.delete h ds) o)
  with_dataset o title (true, ds, h) out cap = with_array o ds title (J.create_array h) out cap

  pub build_catalog : J.Heap → Option Text → ℕ → Option Text → Option Text → Built
  build_catalog h (some out) cap (some dataset_id) (some title) =
      with_object (new_object J h) out (λ o h1. with_second o (new_object J h1) out (λ ds h2.
        with_dataset o title
          (then_add (replace_string J h2 ds field_type (codes "dcat:Dataset")) field_id dataset_id)
          out cap))
  build_catalog h out cap dataset_id title = (null_arg, out, h)

  pub build_agreement_msg : J.Heap → Option Text → ℕ → Option Text → Option Text → Built
  build_agreement_msg h (some out) cap (some process_id) (some agreement_id) =
      with_object (new_object J h) out (λ o h1. with_second o (new_object J h1) out (λ a h2.
        nested o type_contract_agreement process_id field_agreement
          (then_add (replace_string J h2 a field_type (codes "odrl:Agreement")) field_id
            agreement_id)
          out cap))
  build_agreement_msg h out cap process_id agreement_id = (null_arg, out, h)

  pub build_negotiation_event : J.Heap → Option Text → ℕ → Option Text → Option Text → Built
  build_negotiation_event h (some out) cap (some process_id) (some state) =
      with_object (new_object J h) out (λ o h1.
        flat
          (then_add
            (then_add (stamp_common h1 o type_negotiation_event) field_process_id process_id)
            (codes "dspace:eventType") state)
          out cap)
  build_negotiation_event h out cap process_id state = (null_arg, out, h)

  pub build_transfer_start : J.Heap → Option Text → ℕ → Option Text → Option Text → Built
  build_transfer_start h (some out) cap (some process_id) (some endpoint_url) =
      with_object (new_object J h) out (λ o h1. with_second o (new_object J h1) out (λ addr h2.
        nested o type_transfer_start process_id field_data_address
          (replace_string J h2 addr (codes "dspace:endpointUrl") endpoint_url) out cap))
  build_transfer_start h out cap process_id endpoint_url = (null_arg, out, h)

  pub build_transfer_completion : J.Heap → Option Text → ℕ → Option Text → Built
  build_transfer_completion h (some out) cap (some process_id) =
      with_object (new_object J h) out (λ o h1.
        flat (then_add (stamp_common h1 o type_transfer_completion) field_process_id process_id) out
          cap)
  build_transfer_completion h out cap process_id = (null_arg, out, h)

  pub build_error : J.Heap → Option Text → ℕ → Option Text → Option Text → Built
  build_error h (some out) cap (some code_) (some reason) =
      with_object (new_object J h) out (λ o h1.
        flat
          (then_add (then_add (stamp_common h1 o type_error) field_code code_) field_reason reason)
          out cap)
  build_error h out cap code_ reason = (null_arg, out, h)
