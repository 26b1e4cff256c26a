-- ===== src/Build/Frees.antt =====
-- Every builder of components/dsp_build/dsp_build.c, on every branch: what is left on the heap.
use dsp_embedded.Prelude.{ℕ, ◌+◌, ◌≡◌, refl, Option, none, some, Text, codes}
use dsp_embedded.Json.{CJson, replace_string, new_object}
use dsp_embedded.Json.Accounts.{Accounting, replace_string-Balanced}
use dsp_embedded.Jsonld.{
  field_type, field_id, field_process_id, field_code, field_reason, field_agreement,
  field_data_address, type_contract_agreement, type_negotiation_event, type_transfer_start,
  type_transfer_completion, type_error,
}
use dsp_embedded.Build.{
  Built, then_add, stamp_common, flat, build_catalog, build_agreement_msg, build_negotiation_event,
  build_transfer_start, build_transfer_completion, build_error,
}
use dsp_embedded.Build.Accounts.{
  then_add-Balanced, stamped-Balanced, flat_frees, nested_frees, with_dataset_frees,
  with_object_frees, with_second_frees,
}

-- A call of a builder, with its arguments.
pub data Message : Type 0 where
  catalog agreement event start error : Option Text → Option Text → Message
  completion : Option Text → Message

unfoldable pub build : (J : CJson) → J.Heap → Option Text → ℕ → Message → Built J
build J h out cap (catalog dataset_id title) = build_catalog J h out cap dataset_id title
build J h out cap (agreement process_id agreement_id) =
    build_agreement_msg J h out cap process_id agreement_id
build J h out cap (event process_id state) = build_negotiation_event J h out cap process_id state
build J h out cap (start process_id url) = build_transfer_start J h out cap process_id url
build J h out cap (completion process_id) = build_transfer_completion J h out cap process_id
build J h out cap (error code_ reason) = build_error J h out cap code_ reason

module _ (J : CJson) (A : Accounting J) where
  build_catalog_frees :
      (h : J.Heap) (out : Option Text) (cap : ℕ) (id title : Option Text)
      → A.live (build_catalog J h out cap id title).2 ≡ A.live h
  unfolding build_catalog new_object
  build_catalog_frees h none cap id title = refl
  build_catalog_frees h (some out) cap none title = refl
  build_catalog_frees h (some out) cap (some id) none = refl
  build_catalog_frees h (some out) cap (some id) (some title) =
      with_object_frees J A h (J.create_object h) out _ (A.create_object-Made h) (λ o h1 e1.
        with_second_frees J A (A.live h) h1 o (J.create_object h1) out _ e1
          (A.create_object-Made h1)
          (λ ds h2 e2.
            with_dataset_frees J A (A.live h) o title
              (then_add J (replace_string J h2 ds field_type (codes "dcat:Dataset")) field_id id)
              out cap
              (then_add-Balanced J A (A.live h + A.size o)
                (replace_string J h2 ds field_type (codes "dcat:Dataset")) field_id id
                (replace_string-Balanced J A (A.live h + A.size o) h2 ds field_type
                  (codes "dcat:Dataset") e2))))

  build_agreement_msg_frees :
      (h : J.Heap) (out : Option Text) (cap : ℕ) (pid id : Option Text)
      → A.live (build_agreement_msg J h out cap pid id).2 ≡ A.live h
  unfolding build_agreement_msg new_object
  build_agreement_msg_frees h none cap pid id = refl
  build_agreement_msg_frees h (some out) cap none id = refl
  build_agreement_msg_frees h (some out) cap (some pid) none = refl
  build_agreement_msg_frees h (some out) cap (some pid) (some id) =
      with_object_frees J A h (J.create_object h) out _ (A.create_object-Made h) (λ o h1 e1.
        with_second_frees J A (A.live h) h1 o (J.create_object h1) out _ e1
          (A.create_object-Made h1)
          (λ a h2 e2.
            nested_frees J A (A.live h) o type_contract_agreement pid field_agreement
              (then_add J (replace_string J h2 a field_type (codes "odrl:Agreement")) field_id id)
              out cap
              (then_add-Balanced J A (A.live h + A.size o)
                (replace_string J h2 a field_type (codes "odrl:Agreement")) field_id id
                (replace_string-Balanced J A (A.live h + A.size o) h2 a field_type
                  (codes "odrl:Agreement") e2))))

  build_transfer_start_frees :
      (h : J.Heap) (out : Option Text) (cap : ℕ) (pid url : Option Text)
      → A.live (build_transfer_start J h out cap pid url).2 ≡ A.live h
  unfolding build_transfer_start new_object
  build_transfer_start_frees h none cap pid url = refl
  build_transfer_start_frees h (some out) cap none url = refl
  build_transfer_start_frees h (some out) cap (some pid) none = refl
  build_transfer_start_frees h (some out) cap (some pid) (some url) =
      with_object_frees J A h (J.create_object h) out _ (A.create_object-Made h) (λ o h1 e1.
        with_second_frees J A (A.live h) h1 o (J.create_object h1) out _ e1
          (A.create_object-Made h1)
          (λ a h2 e2.
            nested_frees J A (A.live h) o type_transfer_start pid field_data_address
              (replace_string J h2 a (codes "dspace:endpointUrl") url) out cap
              (replace_string-Balanced J A (A.live h + A.size o) h2 a (codes "dspace:endpointUrl")
                url e2)))

  -- A message of two more fields than the two that every message has.
  flat_two_frees :
      (h : J.Heap) (out : Text) (cap : ℕ) (type_ k v k' v' : Text) (o : J.Node) (h1 : J.Heap)
      → A.live h1 ≡ A.live h + A.size o
      → A.live (flat J (then_add J (then_add J (stamp_common J h1 o type_) k v) k' v') out cap).2
        ≡ A.live h
  flat_two_frees h out cap type_ k v k' v' o h1 e =
      flat_frees J A (A.live h) (then_add J (then_add J (stamp_common J h1 o type_) k v) k' v') out
        cap
        (then_add-Balanced J A (A.live h) (then_add J (stamp_common J h1 o type_) k v) k' v'
          (stamped-Balanced J A (A.live h) h1 o type_ k v e))

  build_negotiation_event_frees :
      (h : J.Heap) (out : Option Text) (cap : ℕ) (pid state : Option Text)
      → A.live (build_negotiation_event J h out cap pid state).2 ≡ A.live h
  unfolding build_negotiation_event new_object
  build_negotiation_event_frees h none cap pid state = refl
  build_negotiation_event_frees h (some out) cap none state = refl
  build_negotiation_event_frees h (some out) cap (some pid) none = refl
  build_negotiation_event_frees h (some out) cap (some pid) (some state) =
      with_object_frees J A h (J.create_object h) out _ (A.create_object-Made h) (
        flat_two_frees h out cap type_negotiation_event field_process_id pid
          (codes "dspace:eventType") state)

  build_error_frees :
      (h : J.Heap) (out : Option Text) (cap : ℕ) (code_ reason : Option Text)
      → A.live (build_error J h out cap code_ reason).2 ≡ A.live h
  unfolding build_error new_object
  build_error_frees h none cap code_ reason = refl
  build_error_frees h (some out) cap none reason = refl
  build_error_frees h (some out) cap (some code_) none = refl
  build_error_frees h (some out) cap (some code_) (some reason) =
      with_object_frees J A h (J.create_object h) out _ (A.create_object-Made h)
        (flat_two_frees h out cap type_error field_code code_ field_reason reason)

  build_transfer_completion_frees :
      (h : J.Heap) (out : Option Text) (cap : ℕ) (pid : Option Text)
      → A.live (build_transfer_completion J h out cap pid).2 ≡ A.live h
  unfolding build_transfer_completion new_object
  build_transfer_completion_frees h none cap pid = refl
  build_transfer_completion_frees h (some out) cap none = refl
  build_transfer_completion_frees h (some out) cap (some pid) =
      with_object_frees J A h (J.create_object h) out _ (A.create_object-Made h) (λ o h1 e.
        flat_frees J A (A.live h)
          (then_add J (stamp_common J h1 o type_transfer_completion) field_process_id pid) out cap
          (stamped-Balanced J A (A.live h) h1 o type_transfer_completion field_process_id pid e))

  -- Under the accounting of cJSON, every builder leaves as many blocks allocated as it found, on
  -- success and on every failure: none leaks a tree or a text and none frees one twice.
  pub build_frees :
      (h : J.Heap) (out : Option Text) (cap : ℕ) (m : Message)
      → A.live (build J h out cap m).2 ≡ A.live h
  unfolding build
  build_frees h out cap (catalog id title) = build_catalog_frees h out cap id title
  build_frees h out cap (agreement pid id) = build_agreement_msg_frees h out cap pid id
  build_frees h out cap (event pid state) = build_negotiation_event_frees h out cap pid state
  build_frees h out cap (start pid url) = build_transfer_start_frees h out cap pid url
  build_frees h out cap (completion pid) = build_transfer_completion_frees h out cap pid
  build_frees h out cap (error code_ reason) = build_error_frees h out cap code_ reason
