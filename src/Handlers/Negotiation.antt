-- ===== src/Handlers/Negotiation.antt =====
-- The handlers of components/dsp_neg/dsp_neg.c.
use dsp_embedded.Prelude.{
  ℕ, ◌-◌, Bool, true, false, not, Option, none, some, [], ◌∷◌, if◌then◌else◌, Text, codes, ℤ, pos,
  negsuc,
}
use dsp_embedded.Json.{CJson}
use dsp_embedded.Jsonld.{
  provider_id, state_requested, state_offered, state_agreed, state_verified, state_finalized,
  state_terminated,
}
use dsp_embedded.Msg.{validate_catalog_request}
use dsp_embedded.Build.{Built, build_negotiation_event}
use dsp_embedded.Neg.{
  NegState, initial, requested, offered, agreed, verified, finalized, terminated, offer, agree,
  terminate, Negotiations, create, apply, get_state, find_by_cpid,
}
use dsp_embedded.Handlers.{
  Request, bad_request, not_found, server_error, Reply, refused, json, Connector, buf_size,
  pid_size, is_msg_ok, text_of, segment, read_pid,
}

-- `extract_neg_id`.
abbrev pub extract_neg_id : Option Text → ℕ → Text
extract_neg_id uri size = segment (codes "/negotiations/") uri size

abbrev pub is_agreed : NegState → Bool
is_agreed agreed = true
is_agreed s = false

-- The `switch` of `neg_get_handler`.
abbrev pub state_str : NegState → Text
state_str requested = state_requested
state_str offered = state_offered
state_str agreed = state_agreed
state_str verified = state_verified
state_str finalized = state_finalized
state_str terminated = state_terminated
state_str initial = state_requested

module _ (J : CJson) where
  -- The text that a builder left in the response buffer is sent, whatever the builder returned.
  unfoldable pub respond : Connector J → Option Text → Built J → Reply × Connector J
  respond c status (rc, resp, h) = (json status (text_of resp), record c { heap = h })

  -- A negotiation event in answer.
  unfoldable pub respond_event :
      Connector J → Text → Option Text → Text → Text → Reply × Connector J
  respond_event c stack status pid state =
      respond c status
        (build_negotiation_event J c.heap (some stack) buf_size (some pid) (some state))

  -- After `dsp_neg_create`.
  unfoldable pub offers_slot : Connector J → Text → Text → ℤ × Negotiations → Reply × Connector J
  offers_slot c stack cpid (negsuc n, m) =
      (refused server_error (codes "negotiation table full"), record c { neg = m })
  offers_slot c stack cpid (pos i, m) =
      respond_event (record c { neg = (apply m (pos i) offer).1 }) stack
        (some (codes "201 Created")) cpid state_offered

  unfoldable pub offers_pid : Connector J → Text → Text → Reply × Connector J
  offers_pid c stack [] = (refused bad_request (codes "missing dspace:processId"), c)
  offers_pid c stack (x ∷ s) =
      offers_slot c stack (x ∷ s) (create c.neg (some (x ∷ s)) (some provider_id))

  unfoldable pub offers_message : Connector J → Text → Option J.Node × J.Heap → Reply × Connector J
  offers_message c stack (none, h) =
      (refused bad_request (codes "invalid JSON"), record c { heap = h })
  offers_message c stack (some msg, h) =
      offers_pid (record c { heap = J.delete h msg }) stack (read_pid J msg)

  unfoldable pub offers_body : Connector J → Text → Option Text → Reply × Connector J
  offers_body c stack none = (refused bad_request (codes "empty body"), c)
  offers_body c stack (some body) =
      let (rc, h) = validate_catalog_request J c.heap (some body) in
      if is_msg_ok rc
      then (refused bad_request (codes "wrong message type"), record c { heap = h })
      else offers_message (record c { heap = h }) stack (J.parse h body)

  unfoldable pub offers_post_handler : Connector J → Text → Request → Reply × Connector J
  offers_post_handler c stack req = offers_body c stack (req.recv (buf_size - 1))

  -- After `dsp_neg_find_by_cpid`.
  unfoldable pub terminate_slot : Connector J → Text → Text → ℤ → Reply × Connector J
  terminate_slot c stack cpid (negsuc n) = (refused not_found (codes "negotiation not found"), c)
  terminate_slot c stack cpid (pos i) =
      respond_event (record c { neg = (apply c.neg (pos i) terminate).1 }) stack none cpid
        state_terminated

  unfoldable pub terminate_pid : Connector J → Text → Text → Reply × Connector J
  terminate_pid c stack [] = (refused bad_request (codes "missing dspace:processId"), c)
  terminate_pid c stack (x ∷ s) = terminate_slot c stack (x ∷ s) (find_by_cpid c.neg (some (x ∷ s)))

  unfoldable pub terminate_message :
      Connector J → Text → Option J.Node × J.Heap → Reply × Connector J
  terminate_message c stack (none, h) =
      (refused bad_request (codes "invalid JSON"), record c { heap = h })
  terminate_message c stack (some msg, h) =
      terminate_pid (record c { heap = J.delete h msg }) stack (read_pid J msg)

  unfoldable pub terminate_body : Connector J → Text → Option Text → Reply × Connector J
  terminate_body c stack none = (refused bad_request (codes "empty body"), c)
  terminate_body c stack (some body) = terminate_message c stack (J.parse c.heap body)

  unfoldable pub terminate_post_handler : Connector J → Text → Request → Reply × Connector J
  terminate_post_handler c stack req = terminate_body c stack (req.recv (buf_size - 1))

  -- After `dsp_neg_apply` with AGREE.
  unfoldable pub agree_state :
      Connector J → Text → Text → NegState × Negotiations → Reply × Connector J
  agree_state c stack id (s, m) =
      if not (is_agreed s)
      then (refused bad_request (codes "invalid state for agree"), record c { neg = m })
      else respond_event (record c { neg = m }) stack none id state_agreed

  unfoldable pub agree_slot : Connector J → Text → Text → ℤ → Reply × Connector J
  agree_slot c stack id (negsuc n) = (refused not_found (codes "negotiation not found"), c)
  agree_slot c stack id (pos i) = agree_state c stack id (apply c.neg (pos i) agree)

  unfoldable pub agree_id : Connector J → Text → Text → Reply × Connector J
  agree_id c stack [] = (refused bad_request (codes "missing negotiation id"), c)
  agree_id c stack (x ∷ s) = agree_slot c stack (x ∷ s) (find_by_cpid c.neg (some (x ∷ s)))

  unfoldable pub agree_post_handler : Connector J → Text → Request → Reply × Connector J
  agree_post_handler c stack req = agree_id c stack (extract_neg_id req.uri pid_size)

  unfoldable pub neg_get_slot : Connector J → Text → Text → ℤ → Reply × Connector J
  neg_get_slot c stack id (negsuc n) = (refused not_found (codes "negotiation not found"), c)
  neg_get_slot c stack id (pos i) =
      respond_event c stack none id (state_str (get_state c.neg (pos i)))

  unfoldable pub neg_get_id : Connector J → Text → Text → Reply × Connector J
  neg_get_id c stack [] = (refused bad_request (codes "missing negotiation id"), c)
  neg_get_id c stack (x ∷ s) = neg_get_slot c stack (x ∷ s) (find_by_cpid c.neg (some (x ∷ s)))

  unfoldable pub neg_get_handler : Connector J → Text → Request → Reply × Connector J
  neg_get_handler c stack req = neg_get_id c stack (extract_neg_id req.uri pid_size)
