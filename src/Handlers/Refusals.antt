-- ===== src/Handlers/Refusals.antt =====
-- What a request that is answered with an error leaves of the two slot tables.
use dsp_embedded.Prelude.{
  ℕ, ◌-◌, ◌≡◌, refl, ap, sym, subst, ◌∙◌, inl, inr, Bool, true, false, not, Option, none, some,
  List, [], ◌∷◌, arith, if◌then◌else◌, get_elem?, set, set-get_elem?, Bool-cases, Text, codes, ℤ,
  pos, negsuc,
}
use dsp_embedded.Json.{CJson}
use dsp_embedded.Jsonld.{provider_id}
use dsp_embedded.Msg.{validate_catalog_request, validate_transfer_request}
use dsp_embedded.Build.{Built, build_ok, null_arg, alloc_failed, buf_too_small}
use dsp_embedded.Neg
use dsp_embedded.Neg.{NegState, NegEntry, Negotiations, find_by_cpid, sm_next}
use dsp_embedded.Neg.Slots.{
  Creates, full, takes, create-Creates, Applies, missing, moves, apply-Applies,
}
use dsp_embedded.Xfer
use dsp_embedded.Xfer.{XferState, Transfers, find_by_pid, is_transferring}
use dsp_embedded.Xfer.{initial, transferring, completed, failed}
use dsp_embedded.Xfer.Slots
use dsp_embedded.Handlers.{
  Request, HttpErr, Reply, refused, json, Connector, buf_size, pid_size, is_msg_ok, read_pid,
}
use dsp_embedded.Handlers.Negotiation.{
  respond, respond_event, offers_slot, offers_pid, offers_message, offers_body, offers_post_handler,
  terminate_slot, terminate_pid, terminate_message, terminate_body, terminate_post_handler,
  agree_state, agree_slot, agree_id, agree_post_handler, neg_get_slot, neg_get_id, neg_get_handler,
  is_agreed, extract_neg_id,
}
use dsp_embedded.Handlers.Transfer.{
  respond_start, respond_completion, start_slot, start_agreed, start_pid, start_message, start_body,
  xfer_start_post_handler, complete_slot, complete_id, xfer_complete_post_handler, respond_state,
  xfer_get_slot, xfer_get_id, xfer_get_handler, extract_xfer_id,
}
use dsp_embedded.Handlers.Catalog.{
  catalog_buf_size, catalog_get_json, respond_catalog, catalog_get_handler, catalog_request_body,
  catalog_request_post_handler,
}
use dsp_embedded.Handlers.Serve
use dsp_embedded.Handlers.Serve.{Endpoint, handle}
use dsp_embedded.Handlers.Refusals.Negotiation.{
  Keeps, offers_body-Keeps, terminate_body-Keeps, agree_id-Keeps, neg_get_id-Keeps,
}
use dsp_embedded.Handlers.Refusals.Transfer.{start_body-Keeps, complete_id-Keeps, xfer_get_id-Keeps}
pub mod Negotiation
pub mod Transfer

module _ (J : CJson) where
  respond_catalog-Keeps : (c : Connector J) (r : Built J) → Keeps J c (respond_catalog J c r)
  unfolding respond_catalog
  respond_catalog-Keeps c (build_ok, resp, h) = λ e reason sent. (refl, refl)
  respond_catalog-Keeps c (null_arg, resp, h) = λ e reason sent. (refl, refl)
  respond_catalog-Keeps c (alloc_failed, resp, h) = λ e reason sent. (refl, refl)
  respond_catalog-Keeps c (buf_too_small, resp, h) = λ e reason sent. (refl, refl)

  catalog_request_body-Keeps :
      (c : Connector J) (stack : Text) (body : Option Text)
      → Keeps J c (catalog_request_body J c stack body)
  unfolding catalog_request_body
  catalog_request_body-Keeps c stack none = λ e reason sent. (refl, refl)
  catalog_request_body-Keeps c stack (some body) =
      let v = validate_catalog_request J c.heap (some body) in
      elim (Bool-cases (is_msg_ok v.0)) [
        | inr b ↦ rw b (λ e reason sent. (refl, refl))
        | inl b ↦ rw b (
            respond_catalog-Keeps (record c { heap = v.1 })
              (catalog_get_json J v.1 (some stack) catalog_buf_size))
      ]

  -- A request that is answered with an error changes neither the table of negotiations nor that of
  -- transfers, whichever handler it reaches and wherever it fails.
  pub handle_refused :
      (c : Connector J) (endpoint : Endpoint) (stack : Text) (req : Request) (e : HttpErr)
      (reason : Text)
      → (handle J c endpoint stack req).0 ≡ refused e reason
      → ((handle J c endpoint stack req).1.neg ≡ c.neg)
        × ((handle J c endpoint stack req).1.xfer ≡ c.xfer)
  unfolding handle offers_post_handler terminate_post_handler agree_post_handler neg_get_handler
      xfer_start_post_handler xfer_complete_post_handler xfer_get_handler catalog_get_handler
      catalog_request_post_handler
  handle_refused c Serve.offers stack req e reason sent =
      offers_body-Keeps J c stack (req.recv (buf_size - 1)) e reason sent
  handle_refused c Serve.terminates stack req e reason sent =
      terminate_body-Keeps J c stack (req.recv (buf_size - 1)) e reason sent
  handle_refused c Serve.agrees stack req e reason sent =
      agree_id-Keeps J c stack (extract_neg_id req.uri pid_size) e reason sent
  handle_refused c Serve.negotiation stack req e reason sent =
      neg_get_id-Keeps J c stack (extract_neg_id req.uri pid_size) e reason sent
  handle_refused c Serve.starts stack req e reason sent =
      start_body-Keeps J c stack (req.recv (buf_size - 1)) e reason sent
  handle_refused c Serve.completes stack req e reason sent =
      complete_id-Keeps J c stack (extract_xfer_id req.uri pid_size) e reason sent
  handle_refused c Serve.transfer stack req e reason sent =
      xfer_get_id-Keeps J c stack (extract_xfer_id req.uri pid_size) e reason sent
  handle_refused c Serve.catalog stack req e reason sent =
      respond_catalog-Keeps c (catalog_get_json J c.heap (some stack) catalog_buf_size) e reason
        sent
  handle_refused c Serve.catalog_request stack req e reason sent =
      catalog_request_body-Keeps c stack (req.recv (catalog_buf_size - 1)) e reason sent
