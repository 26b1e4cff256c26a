-- ===== src/Handlers/Heap/Negotiation.antt =====
-- What the handlers of components/dsp_neg/dsp_neg.c leave on the heap of cJSON.
use dsp_embedded.Prelude.{
  ℕ, ◌+◌, ◌≡◌, refl, ◌∙◌, inl, inr, Option, none, some, [], ◌∷◌, arith, Bool-cases, Text, codes, ℤ,
  pos, negsuc,
}
use dsp_embedded.Json.{CJson}
use dsp_embedded.Json.Accounts.{Accounting, Made}
use dsp_embedded.Jsonld.{provider_id, state_offered, state_terminated, state_agreed}
use dsp_embedded.Msg.{validate_catalog_request}
use dsp_embedded.Msg.Verdict.{validate, catalog_request}
use dsp_embedded.Msg.Frees.{validate_frees}
use dsp_embedded.Build.Frees.{build, build_frees, event}
use dsp_embedded.Neg.{
  NegState, Negotiations, create, apply, find_by_cpid, agree, get_state, offer, terminate,
}
use dsp_embedded.Handlers.{Connector, buf_size, is_msg_ok, read_pid}
use dsp_embedded.Handlers.Negotiation.{
  respond, respond_event, offers_slot, offers_pid, offers_message, offers_body, terminate_slot,
  terminate_pid, terminate_message, terminate_body, agree_state, agree_slot, agree_id, neg_get_slot,
  neg_get_id, is_agreed, state_str,
}

module _ (J : CJson) (A : Accounting J) where
  -- The blocks on the heap of a connector.
  abbrev pub blocks_of : Connector J → ℕ
  blocks_of c = A.live c.heap

  respond_event_frees :
      (c : Connector J) (stack : Text) (status : Option Text) (pid state : Text)
      → blocks_of (respond_event J c stack status pid state).1 ≡ blocks_of c
  unfolding respond_event respond build
  respond_event_frees c stack status pid state =
      build_frees J A c.heap (some stack) buf_size (event (some pid) (some state))

  offers_slot_frees :
      (c : Connector J) (stack cpid : Text) (r : ℤ × Negotiations)
      → blocks_of (offers_slot J c stack cpid r).1 ≡ blocks_of c
  unfolding offers_slot
  offers_slot_frees c stack cpid (negsuc n, m) = refl
  offers_slot_frees c stack cpid (pos i, m) =
      respond_event_frees (record c { neg = (apply m (pos i) offer).1 }) stack
        (some (codes "201 Created")) cpid state_offered

  offers_pid_frees :
      (c : Connector J) (stack pid : Text) → blocks_of (offers_pid J c stack pid).1 ≡ blocks_of c
  unfolding offers_pid
  offers_pid_frees c stack [] = refl
  offers_pid_frees c stack (x ∷ s) =
      offers_slot_frees c stack (x ∷ s) (create c.neg (some (x ∷ s)) (some provider_id))

  -- A message that is parsed, read and deleted.
  pub deleted :
      (h h' : J.Heap) (msg : J.Node)
      → A.live h' ≡ A.live h + A.size msg
      → A.live (J.delete h' msg) ≡ A.live h
  deleted h h' msg m = omega (arith, A.delete_frees h' msg, m)

  offers_message_frees :
      (c : Connector J) (stack : Text) (r : Option J.Node × J.Heap)
      → Made J A.live A.size c.heap r
      → blocks_of (offers_message J c stack r).1 ≡ blocks_of c
  unfolding offers_message
  offers_message_frees c stack (none, h) m = m
  offers_message_frees c stack (some msg, h) m =
      offers_pid_frees (record c { heap = J.delete h msg }) stack (read_pid J msg)
      ∙ deleted c.heap h msg m

  pub offers_body_frees :
      (c : Connector J) (stack : Text) (body : Option Text)
      → blocks_of (offers_body J c stack body).1 ≡ blocks_of c
  unfolding offers_body validate
  offers_body_frees c stack none = refl
  offers_body_frees c stack (some body) =
      let v = validate_catalog_request J c.heap (some body) in
      let same : A.live v.1 ≡ A.live c.heap = validate_frees J A catalog_request c.heap body in
      elim (Bool-cases (is_msg_ok v.0)) [
        | inl e ↦ rw e same
        | inr e ↦ rw e (
            offers_message_frees (record c { heap = v.1 }) stack (J.parse v.1 body)
              (A.parse-Made v.1 body)
            ∙ same)
      ]

  terminate_slot_frees :
      (c : Connector J) (stack cpid : Text) (idx : ℤ)
      → blocks_of (terminate_slot J c stack cpid idx).1 ≡ blocks_of c
  unfolding terminate_slot
  terminate_slot_frees c stack cpid (negsuc n) = refl
  terminate_slot_frees c stack cpid (pos i) =
      respond_event_frees (record c { neg = (apply c.neg (pos i) terminate).1 }) stack none cpid
        state_terminated

  terminate_pid_frees :
      (c : Connector J) (stack pid : Text) → blocks_of (terminate_pid J c stack pid).1 ≡ blocks_of c
  unfolding terminate_pid
  terminate_pid_frees c stack [] = refl
  terminate_pid_frees c stack (x ∷ s) =
      terminate_slot_frees c stack (x ∷ s) (find_by_cpid c.neg (some (x ∷ s)))

  terminate_message_frees :
      (c : Connector J) (stack : Text) (r : Option J.Node × J.Heap)
      → Made J A.live A.size c.heap r
      → blocks_of (terminate_message J c stack r).1 ≡ blocks_of c
  unfolding terminate_message
  terminate_message_frees c stack (none, h) m = m
  terminate_message_frees c stack (some msg, h) m =
      terminate_pid_frees (record c { heap = J.delete h msg }) stack (read_pid J msg)
      ∙ deleted c.heap h msg m

  pub terminate_body_frees :
      (c : Connector J) (stack : Text) (body : Option Text)
      → blocks_of (terminate_body J c stack body).1 ≡ blocks_of c
  unfolding terminate_body
  terminate_body_frees c stack none = refl
  terminate_body_frees c stack (some body) =
      terminate_message_frees c stack (J.parse c.heap body) (A.parse-Made c.heap body)

  agree_state_frees :
      (c : Connector J) (stack id : Text) (r : NegState × Negotiations)
      → blocks_of (agree_state J c stack id r).1 ≡ blocks_of c
  unfolding agree_state
  agree_state_frees c stack id (s, m) = elim (Bool-cases (is_agreed s)) [
    | inl e ↦ rw e (respond_event_frees (record c { neg = m }) stack none id state_agreed)
    | inr e ↦ rw e refl
  ]

  agree_slot_frees :
      (c : Connector J) (stack id : Text) (idx : ℤ)
      → blocks_of (agree_slot J c stack id idx).1 ≡ blocks_of c
  unfolding agree_slot
  agree_slot_frees c stack id (negsuc n) = refl
  agree_slot_frees c stack id (pos i) = agree_state_frees c stack id (apply c.neg (pos i) agree)

  pub agree_id_frees :
      (c : Connector J) (stack id : Text) → blocks_of (agree_id J c stack id).1 ≡ blocks_of c
  unfolding agree_id
  agree_id_frees c stack [] = refl
  agree_id_frees c stack (x ∷ s) =
      agree_slot_frees c stack (x ∷ s) (find_by_cpid c.neg (some (x ∷ s)))

  neg_get_slot_frees :
      (c : Connector J) (stack id : Text) (idx : ℤ)
      → blocks_of (neg_get_slot J c stack id idx).1 ≡ blocks_of c
  unfolding neg_get_slot
  neg_get_slot_frees c stack id (negsuc n) = refl
  neg_get_slot_frees c stack id (pos i) =
      respond_event_frees c stack none id (state_str (get_state c.neg (pos i)))

  pub neg_get_id_frees :
      (c : Connector J) (stack id : Text) → blocks_of (neg_get_id J c stack id).1 ≡ blocks_of c
  unfolding neg_get_id
  neg_get_id_frees c stack [] = refl
  neg_get_id_frees c stack (x ∷ s) =
      neg_get_slot_frees c stack (x ∷ s) (find_by_cpid c.neg (some (x ∷ s)))
