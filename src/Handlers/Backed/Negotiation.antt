-- ===== src/Handlers/Backed/Negotiation.antt =====
-- What the requests to dsp_neg keep of the two slot tables (components/dsp_neg, components/dsp_xfer).
use dsp_embedded.Prelude.{
  ℕ, inl, inr, Option, none, some, [], ◌∷◌, Bool-cases, Text, ℤ, pos, negsuc,
}
use dsp_embedded.Json.{CJson}
use dsp_embedded.Jsonld.{provider_id}
use dsp_embedded.Msg.{validate_catalog_request}
use dsp_embedded.Neg
use dsp_embedded.Neg.{NegState, agreed, Negotiations, find_by_cpid}
use dsp_embedded.Handlers.{Connector, is_msg_ok, read_pid}
use dsp_embedded.Handlers.Tables.{create-Grows, apply-Grows, AreSound, AreSound-Grows}
use dsp_embedded.Handlers.Negotiation.{
  respond, respond_event, offers_slot, offers_pid, offers_message, offers_body, terminate_slot,
  terminate_pid, terminate_message, terminate_body, agree_state, agree_slot, agree_id, neg_get_slot,
  neg_get_id, is_agreed,
}

module _ (J : CJson) (max : ℕ) (W : Text → Type 0) where
  -- The tables of a connector.
  abbrev pub HasSound : Connector J → Type 0
  HasSound c = AreSound W max c.neg c.xfer

  offers_slot-HasSound :
      (c : Connector J) (stack cpid : Text) (r : ℤ × Negotiations)
      → AreSound W max r.1 c.xfer
      → HasSound (offers_slot J c stack cpid r).1
  unfolding offers_slot respond_event respond
  offers_slot-HasSound c stack cpid (negsuc n, m) s = s
  offers_slot-HasSound c stack cpid (pos i, m) s =
      AreSound-Grows (apply-Grows max m (pos i) Neg.offer) s

  offers_pid-HasSound :
      (c : Connector J) (stack pid : Text) → HasSound c → HasSound (offers_pid J c stack pid).1
  unfolding offers_pid
  offers_pid-HasSound c stack [] s = s
  offers_pid-HasSound c stack (x ∷ t) s =
      offers_slot-HasSound c stack (x ∷ t) (Neg.create c.neg (some (x ∷ t)) (some provider_id))
        (AreSound-Grows (create-Grows max c.neg (some (x ∷ t)) (some provider_id)) s)

  offers_message-HasSound :
      (c : Connector J) (stack : Text) (r : Option J.Node × J.Heap)
      → HasSound c
      → HasSound (offers_message J c stack r).1
  unfolding offers_message
  offers_message-HasSound c stack (none, h) s = s
  offers_message-HasSound c stack (some msg, h) s =
      offers_pid-HasSound (record c { heap = J.delete h msg }) stack (read_pid J msg) s

  pub offers_body-HasSound :
      (c : Connector J) (stack : Text) (body : Option Text)
      → HasSound c
      → HasSound (offers_body J c stack body).1
  unfolding offers_body
  offers_body-HasSound c stack none s = s
  offers_body-HasSound c stack (some body) s =
      let v = validate_catalog_request J c.heap (some body) in
      elim (Bool-cases (is_msg_ok v.0)) [
        | inl e ↦ rw e s
        | inr e ↦
            rw e (offers_message-HasSound (record c { heap = v.1 }) stack (J.parse v.1 body) s)
      ]

  terminate_slot-HasSound :
      (c : Connector J) (stack cpid : Text) (idx : ℤ)
      → HasSound c
      → HasSound (terminate_slot J c stack cpid idx).1
  unfolding terminate_slot respond_event respond
  terminate_slot-HasSound c stack cpid (negsuc n) s = s
  terminate_slot-HasSound c stack cpid (pos i) s =
      AreSound-Grows (apply-Grows max c.neg (pos i) Neg.terminate) s

  terminate_pid-HasSound :
      (c : Connector J) (stack pid : Text) → HasSound c → HasSound (terminate_pid J c stack pid).1
  unfolding terminate_pid
  terminate_pid-HasSound c stack [] s = s
  terminate_pid-HasSound c stack (x ∷ t) s =
      terminate_slot-HasSound c stack (x ∷ t) (find_by_cpid c.neg (some (x ∷ t))) s

  terminate_message-HasSound :
      (c : Connector J) (stack : Text) (r : Option J.Node × J.Heap)
      → HasSound c
      → HasSound (terminate_message J c stack r).1
  unfolding terminate_message
  terminate_message-HasSound c stack (none, h) s = s
  terminate_message-HasSound c stack (some msg, h) s =
      terminate_pid-HasSound (record c { heap = J.delete h msg }) stack (read_pid J msg) s

  pub terminate_body-HasSound :
      (c : Connector J) (stack : Text) (body : Option Text)
      → HasSound c
      → HasSound (terminate_body J c stack body).1
  unfolding terminate_body
  terminate_body-HasSound c stack none s = s
  terminate_body-HasSound c stack (some body) s =
      terminate_message-HasSound c stack (J.parse c.heap body) s

  agree_state-HasSound :
      (c : Connector J) (stack id : Text) (r : NegState × Negotiations)
      → AreSound W max r.1 c.xfer
      → HasSound (agree_state J c stack id r).1
  unfolding agree_state respond_event respond
  agree_state-HasSound c stack id (state, m) s = elim (Bool-cases (is_agreed state)) [
    | inl e ↦ rw e s
    | inr e ↦ rw e s
  ]

  agree_slot-HasSound :
      (c : Connector J) (stack id : Text) (idx : ℤ)
      → HasSound c
      → HasSound (agree_slot J c stack id idx).1
  unfolding agree_slot
  agree_slot-HasSound c stack id (negsuc n) s = s
  agree_slot-HasSound c stack id (pos i) s =
      agree_state-HasSound c stack id (Neg.apply c.neg (pos i) Neg.agree)
        (AreSound-Grows (apply-Grows max c.neg (pos i) Neg.agree) s)

  pub agree_id-HasSound :
      (c : Connector J) (stack id : Text) → HasSound c → HasSound (agree_id J c stack id).1
  unfolding agree_id
  agree_id-HasSound c stack [] s = s
  agree_id-HasSound c stack (x ∷ t) s =
      agree_slot-HasSound c stack (x ∷ t) (find_by_cpid c.neg (some (x ∷ t))) s

  neg_get_slot-HasSound :
      (c : Connector J) (stack id : Text) (idx : ℤ)
      → HasSound c
      → HasSound (neg_get_slot J c stack id idx).1
  unfolding neg_get_slot respond_event respond
  neg_get_slot-HasSound c stack id (negsuc n) s = s
  neg_get_slot-HasSound c stack id (pos i) s = s

  pub neg_get_id-HasSound :
      (c : Connector J) (stack id : Text) → HasSound c → HasSound (neg_get_id J c stack id).1
  unfolding neg_get_id
  neg_get_id-HasSound c stack [] s = s
  neg_get_id-HasSound c stack (x ∷ t) s =
      neg_get_slot-HasSound c stack (x ∷ t) (find_by_cpid c.neg (some (x ∷ t))) s
