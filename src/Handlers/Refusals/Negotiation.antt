-- ===== src/Handlers/Refusals/Negotiation.antt =====
-- What a request to dsp_neg that is answered with an error leaves of the two slot tables.
use dsp_embedded.Prelude.{
  ℕ, ◌≡◌, refl, ap, ◌∙◌, inl, inr, false, Option, none, some, [], ◌∷◌, set, set-get_elem?,
  Bool-cases, Text, ℤ, pos, negsuc,
}
use dsp_embedded.Json.{CJson}
use dsp_embedded.Jsonld.{provider_id}
use dsp_embedded.Msg.{validate_catalog_request}
use dsp_embedded.Neg
use dsp_embedded.Neg.{NegState, NegEntry, Negotiations, find_by_cpid, sm_next}
use dsp_embedded.Neg.Slots.{
  Creates, full, takes, create-Creates, Applies, missing, moves, apply-Applies,
}
use dsp_embedded.Handlers.{HttpErr, Reply, refused, Connector, is_msg_ok, read_pid}
use dsp_embedded.Handlers.Negotiation.{
  respond, respond_event, offers_slot, offers_pid, offers_message, offers_body, terminate_slot,
  terminate_pid, terminate_message, terminate_body, agree_state, agree_slot, agree_id, neg_get_slot,
  neg_get_id, is_agreed,
}

-- AGREE that does not lead to AGREED leads nowhere.
sm_next-agree : (s : NegState) → is_agreed (sm_next s Neg.agree) ≡ false → sm_next s Neg.agree ≡ s
unfolding sm_next
sm_next-agree Neg.initial e = refl
sm_next-agree Neg.requested e = absurd (cc)
sm_next-agree Neg.offered e = absurd (cc)
sm_next-agree Neg.agreed e = refl
sm_next-agree Neg.verified e = refl
sm_next-agree Neg.finalized e = refl
sm_next-agree Neg.terminated e = refl

applied_nowhere :
    (m : Negotiations) (i : ℕ) (r : NegState × Negotiations)
    → Applies m i Neg.agree r
    → is_agreed r.0 ≡ false
    → r.1 ≡ m
applied_nowhere m i r (missing n) e = refl
applied_nowhere m i r (moves x at busy) e =
    ap (λ t. record m { table = t })
      (ap (λ s. set m.table i (record x { state = s })) (sm_next-agree x.state e)
        ∙ set-get_elem? m.table i x at)

module _ (J : CJson) where
  -- If the reply is an error, the tables are those of the connector.
  abbrev pub Keeps : Connector J → Reply × Connector J → Type 0
  Keeps c r =
      (e : HttpErr) (reason : Text)
      → r.0 ≡ refused e reason
      → (r.1.neg ≡ c.neg) × (r.1.xfer ≡ c.xfer)

  offers_slot-Keeps :
      (c : Connector J) (stack cpid : Text) (r : ℤ × Negotiations)
      → Creates c.neg (Neg.fresh_entry cpid provider_id) r
      → Keeps c (offers_slot J c stack cpid r)
  unfolding offers_slot respond_event respond
  offers_slot-Keeps c stack cpid r (full n) = λ e reason sent. (refl, refl)
  offers_slot-Keeps c stack cpid r (takes i old at free before) = λ e reason sent. absurd (cc)

  offers_pid-Keeps : (c : Connector J) (stack pid : Text) → Keeps c (offers_pid J c stack pid)
  unfolding offers_pid
  offers_pid-Keeps c stack [] = λ e reason sent. (refl, refl)
  offers_pid-Keeps c stack (x ∷ s) =
      offers_slot-Keeps c stack (x ∷ s) (Neg.create c.neg (some (x ∷ s)) (some provider_id))
        (create-Creates c.neg (x ∷ s) provider_id)

  offers_message-Keeps :
      (c : Connector J) (stack : Text) (r : Option J.Node × J.Heap)
      → Keeps c (offers_message J c stack r)
  unfolding offers_message
  offers_message-Keeps c stack (none, h) = λ e reason sent. (refl, refl)
  offers_message-Keeps c stack (some msg, h) =
      offers_pid-Keeps (record c { heap = J.delete h msg }) stack (read_pid J msg)

  pub offers_body-Keeps :
      (c : Connector J) (stack : Text) (body : Option Text) → Keeps c (offers_body J c stack body)
  unfolding offers_body
  offers_body-Keeps c stack none = λ e reason sent. (refl, refl)
  offers_body-Keeps c stack (some body) =
      let v = validate_catalog_request J c.heap (some body) in
      elim (Bool-cases (is_msg_ok v.0)) [
        | inl b ↦ rw b (λ e reason sent. (refl, refl))
        | inr b ↦ rw b (offers_message-Keeps (record c { heap = v.1 }) stack (J.parse v.1 body))
      ]

  terminate_slot-Keeps :
      (c : Connector J) (stack cpid : Text) (idx : ℤ) → Keeps c (terminate_slot J c stack cpid idx)
  unfolding terminate_slot respond_event respond
  terminate_slot-Keeps c stack cpid (negsuc n) = λ e reason sent. (refl, refl)
  terminate_slot-Keeps c stack cpid (pos i) = λ e reason sent. absurd (cc)

  terminate_pid-Keeps : (c : Connector J) (stack pid : Text) → Keeps c (terminate_pid J c stack pid)
  unfolding terminate_pid
  terminate_pid-Keeps c stack [] = λ e reason sent. (refl, refl)
  terminate_pid-Keeps c stack (x ∷ s) =
      terminate_slot-Keeps c stack (x ∷ s) (find_by_cpid c.neg (some (x ∷ s)))

  terminate_message-Keeps :
      (c : Connector J) (stack : Text) (r : Option J.Node × J.Heap)
      → Keeps c (terminate_message J c stack r)
  unfolding terminate_message
  terminate_message-Keeps c stack (none, h) = λ e reason sent. (refl, refl)
  terminate_message-Keeps c stack (some msg, h) =
      terminate_pid-Keeps (record c { heap = J.delete h msg }) stack (read_pid J msg)

  pub terminate_body-Keeps :
      (c : Connector J) (stack : Text) (body : Option Text)
      → Keeps c (terminate_body J c stack body)
  unfolding terminate_body
  terminate_body-Keeps c stack none = λ e reason sent. (refl, refl)
  terminate_body-Keeps c stack (some body) = terminate_message-Keeps c stack (J.parse c.heap body)

  agree_state-Keeps :
      (c : Connector J) (stack id : Text) (i : ℕ) (r : NegState × Negotiations)
      → Applies c.neg i Neg.agree r
      → Keeps c (agree_state J c stack id r)
  unfolding agree_state respond_event respond
  agree_state-Keeps c stack id i r a = elim (Bool-cases (is_agreed r.0)) [
    | inl b ↦ rw b (λ e reason sent. absurd (cc))
    | inr b ↦ rw b (λ e reason sent. (applied_nowhere c.neg i r a b, refl))
  ]

  agree_slot-Keeps :
      (c : Connector J) (stack id : Text) (idx : ℤ) → Keeps c (agree_slot J c stack id idx)
  unfolding agree_slot
  agree_slot-Keeps c stack id (negsuc n) = λ e reason sent. (refl, refl)
  agree_slot-Keeps c stack id (pos i) =
      agree_state-Keeps c stack id i (Neg.apply c.neg (pos i) Neg.agree)
        (apply-Applies c.neg i Neg.agree)

  pub agree_id-Keeps : (c : Connector J) (stack id : Text) → Keeps c (agree_id J c stack id)
  unfolding agree_id
  agree_id-Keeps c stack [] = λ e reason sent. (refl, refl)
  agree_id-Keeps c stack (x ∷ s) =
      agree_slot-Keeps c stack (x ∷ s) (find_by_cpid c.neg (some (x ∷ s)))

  neg_get_slot-Keeps :
      (c : Connector J) (stack id : Text) (idx : ℤ) → Keeps c (neg_get_slot J c stack id idx)
  unfolding neg_get_slot respond_event respond
  neg_get_slot-Keeps c stack id (negsuc n) = λ e reason sent. (refl, refl)
  neg_get_slot-Keeps c stack id (pos i) = λ e reason sent. (refl, refl)

  pub neg_get_id-Keeps : (c : Connector J) (stack id : Text) → Keeps c (neg_get_id J c stack id)
  unfolding neg_get_id
  neg_get_id-Keeps c stack [] = λ e reason sent. (refl, refl)
  neg_get_id-Keeps c stack (x ∷ s) =
      neg_get_slot-Keeps c stack (x ∷ s) (find_by_cpid c.neg (some (x ∷ s)))
