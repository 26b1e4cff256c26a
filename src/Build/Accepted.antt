-- ===== src/Build/Accepted.antt =====
-- What dsp_msg and dsp_json read from the messages that components/dsp_build/dsp_build.c builds.
use dsp_embedded.Prelude.{
  ℕ, ◌<◌, ◌≡◌, refl, subst, true, Option, none, some, [], ◌∷◌, arith, length, Text, strcmp_eq,
  codes,
}
use dsp_embedded.Json.{CJson, string_value, is_nonempty, replace_string, new_object, get_string}
use dsp_embedded.Json.Documents.{Documented, IfMade}
use dsp_embedded.Jsonld.{field_type, field_id, field_process_id, type_negotiation_event}
use dsp_embedded.Msg.{
  MsgErr, msg_ok, null_input, parse_failed, missing_context, wrong_type, missing_field,
  validate_agreement,
}
use dsp_embedded.Msg.Verdict.{
  Verdict, no_context, other_type, lacks_field, valid, agreement, has_fields, validate,
  validate-Verdict,
}
use dsp_embedded.Build.{
  then_add, stamp_common, build_agreement_msg, build_negotiation_event, build_ok,
}
use dsp_embedded.Build.Delivers.{
  Sees, Delivers, replace_string-Sees, then_add-Sees, flat-Delivers, with_object-Delivers,
  with_second-Delivers,
}
use dsp_embedded.Build.Agreement.{
  message_fields, IsAgreement, stamped-Sees, nested-IsAgreement, then_add-object,
  replace_string-object,
}

module _ (J : CJson) (D : Documented J) where
  build_negotiation_event-Delivers :
      (h : J.Heap) (out : Text) (cap : ℕ) (pid state : Text)
      → Delivers J
          (Sees J ((codes "dspace:eventType", state) ∷ message_fields type_negotiation_event pid))
          cap
          (build_negotiation_event J h (some out) cap (some pid) (some state))
  unfolding build_negotiation_event new_object strcmp_eq
  build_negotiation_event-Delivers h out cap pid state =
      let event_fields =
        (codes "dspace:eventType", state) ∷ message_fields type_negotiation_event pid in
      with_object-Delivers J D (Sees J event_fields) cap (J.create_object h) out _
        (D.create_object_empty h)
        (λ o h1 fresh.
          flat-Delivers J D (Sees J event_fields)
            (then_add J
              (then_add J (stamp_common J h1 o type_negotiation_event) field_process_id pid)
              (codes "dspace:eventType") state)
            out cap
            (then_add-Sees J D (message_fields type_negotiation_event pid)
              (then_add J (stamp_common J h1 o type_negotiation_event) field_process_id pid)
              (codes "dspace:eventType") state refl
              (stamped-Sees J D h1 o type_negotiation_event pid fresh.1)))

  build_agreement_msg-Delivers :
      (h : J.Heap) (out : Text) (cap : ℕ) (pid id : Text)
      → Delivers J
          (IsAgreement J pid)
          cap
          (build_agreement_msg J h (some out) cap (some pid) (some id))
  unfolding build_agreement_msg new_object strcmp_eq
  build_agreement_msg-Delivers h out cap pid id =
      with_object-Delivers J D (IsAgreement J pid) cap (J.create_object h) out _
        (D.create_object_empty h)
        (λ o h1 fresh.
          with_second-Delivers J D (IsAgreement J pid) cap o (J.create_object h1) out _
            (D.create_object_empty h1)
            (λ a h2 nested_fresh.
              nested-IsAgreement J D pid o
                (then_add J (replace_string J h2 a field_type (codes "odrl:Agreement")) field_id id)
                out cap fresh.1
                (then_add-object J D ((field_type, codes "odrl:Agreement") ∷ [])
                  (replace_string J h2 a field_type (codes "odrl:Agreement")) field_id id refl
                  (replace_string-Sees J D [] h2 a field_type (codes "odrl:Agreement") refl
                    nested_fresh.1)
                  (replace_string-object J D h2 a field_type (codes "odrl:Agreement")
                    (nested_fresh.1 field_type) nested_fresh.0))))

  -- A string that is there and fits the room is what is read.
  get_string_holds :
      (n : J.Node) (key b s : Text) (room : ℕ)
      → length s < room
      → string_value J (J.get_item n key) ≡ some s
      → get_string J (some n) (some key) (some b) room ≡ (true, some s)
  unfolding get_string
  get_string_holds n key b s room fits e = rw e (ground (arith, fits))

  made_node :
      (P : J.Node → Type 0) (n : J.Node) (r : Option J.Node × J.Heap)
      → r.0 ≡ some n
      → IfMade J P r
      → P n
  made_node P n (none, h) e m = absurd (cc)
  made_node P n (some x, h) e m = subst P (ground (arith, e)) m

  agreement-fields :
      (pid : Text) (n : J.Node)
      → is_nonempty pid ≡ true
      → IsAgreement J pid n
      → has_fields J agreement n ≡ true
  agreement-fields pid n e a = rw (a.2, a.3, e) refl

  accepted :
      (pid : Text) (n : J.Node) (e : MsgErr)
      → is_nonempty pid ≡ true
      → IsAgreement J pid n
      → Verdict J agreement (some n) e
      → e ≡ msg_ok
  accepted pid n null_input f a v = elim v [ ]
  accepted pid n parse_failed f a v = elim v [ ]
  accepted pid n missing_context f a (no_context k c) = absurd (ground (arith, c, a.0))
  accepted pid n wrong_type f a (other_type k c t) = absurd (t a.1)
  accepted pid n missing_field f a (lacks_field k c t m) =
      absurd (ground (arith, m, agreement-fields pid n f a))
  accepted pid n msg_ok f a (valid k c t m) = refl

  -- A successful call of dsp_build_agreement_msg with a non-empty process ID writes a text that fits
  -- the buffer with its NUL and that, wherever cJSON parses it again, dsp_msg_validate_agreement
  -- accepts.
  pub validate_agreement-build_agreement_msg :
      (h h' : J.Heap) (out : Text) (cap : ℕ) (pid id text : Text) (n : J.Node)
      → is_nonempty pid ≡ true
      → (build_agreement_msg J h (some out) cap (some pid) (some id)).0 ≡ build_ok
      → (build_agreement_msg J h (some out) cap (some pid) (some id)).1 ≡ some text
      → (J.parse h' text).0 ≡ some n
      → (length text < cap) × ((validate_agreement J h' (some text)).0 ≡ msg_ok)
  unfolding validate
  validate_agreement-build_agreement_msg h h' out cap pid id text n full ok there back =
      let d = build_agreement_msg-Delivers h out cap pid id text ok there in
      (
        d.0,
        accepted pid n (validate J agreement h' (some text)).0 full
            (made_node (IsAgreement J pid) n (J.parse h' text) back (d.1 h'))
            (subst (λ r. Verdict J agreement r (validate J agreement h' (some text)).0) back
              (validate-Verdict J agreement h' text)),
      )

  -- A successful call of dsp_build_negotiation_event writes a text that fits the buffer with its NUL
  -- and from which, wherever cJSON parses it again, dsp_json_get_string reads the process ID and the
  -- state, if the room it is given holds them with their NUL.
  pub get_string-build_negotiation_event :
      (h h' : J.Heap) (out : Text) (cap : ℕ) (pid state text : Text) (n : J.Node) (b : Text)
      (room : ℕ)
      → (build_negotiation_event J h (some out) cap (some pid) (some state)).0 ≡ build_ok
      → (build_negotiation_event J h (some out) cap (some pid) (some state)).1 ≡ some text
      → (J.parse h' text).0 ≡ some n
      → length pid < room
      → length state < room
      → (length text < cap)
        × (get_string J (some n) (some field_process_id) (some b) room ≡ (true, some pid))
        × (get_string J (some n) (some (codes "dspace:eventType")) (some b) room
            ≡ (true, some state))
  unfolding strcmp_eq
  get_string-build_negotiation_event h h' out cap pid state text n b room ok there back f g =
      let d = build_negotiation_event-Delivers h out cap pid state text ok there in
      let sees =
        made_node
          (Sees J ((codes "dspace:eventType", state) ∷ message_fields type_negotiation_event pid)) n
          (J.parse h' text) back (d.1 h') in
      (
        d.0,
        get_string_holds n field_process_id b pid room f (sees field_process_id),
        get_string_holds n (codes "dspace:eventType") b state room g
            (sees (codes "dspace:eventType")),
      )
