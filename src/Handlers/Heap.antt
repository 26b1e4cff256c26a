-- ===== src/Handlers/Heap.antt =====
-- What the handlers leave on the heap of cJSON.
use dsp_embedded.Prelude.{
  ℕ, ◌+◌, ◌-◌, ◌≡◌, refl, ◌∙◌, inl, inr, Bool, true, false, not, Option, none, some, List, [], ◌∷◌,
  arith, if◌then◌else◌, Bool-cases, Text, codes, ℤ, pos, negsuc,
}
use dsp_embedded.Json.{CJson}
use dsp_embedded.Json.Accounts.{Accounting, Made}
use dsp_embedded.Jsonld.{provider_id, state_offered, state_terminated, state_agreed}
use dsp_embedded.Msg.{validate_catalog_request, validate_transfer_request}
use dsp_embedded.Msg.Verdict.{validate, catalog_request, transfer_request}
use dsp_embedded.Msg.Frees.{validate_frees}
use dsp_embedded.Build.{
  Built, build_ok, null_arg, alloc_failed, buf_too_small, build_negotiation_event,
  build_transfer_start, build_transfer_completion, build_error, build_catalog,
}
use dsp_embedded.Build.Frees.{build, build_frees, event, start, completion, error, catalog}
use dsp_embedded.Neg
use dsp_embedded.Neg.{
  NegState, Negotiations, create, apply, find_by_cpid, agree, get_state, offer, terminate,
}
use dsp_embedded.Xfer
use dsp_embedded.Xfer.{
  XferState, initial, transferring, completed, failed, Transfers, is_transferring, find_by_pid,
}
use dsp_embedded.Handlers.{Request, Reply, Connector, buf_size, pid_size, is_msg_ok, read_pid}
use dsp_embedded.Handlers.Negotiation.{
  respond, respond_event, offers_slot, offers_pid, offers_message, offers_body, offers_post_handler,
  terminate_slot, terminate_pid, terminate_message, terminate_body, terminate_post_handler,
  agree_state, agree_slot, agree_id, agree_post_handler, neg_get_slot, neg_get_id, neg_get_handler,
  is_agreed, state_str, extract_neg_id,
}
use dsp_embedded.Handlers.Transfer.{
  respond_start, respond_completion, start_slot, start_agreed, start_pid, start_message, start_body,
  xfer_start_post_handler, complete_slot, complete_id, xfer_complete_post_handler, respond_state,
  xfer_get_slot, xfer_get_id, xfer_get_handler, extract_xfer_id,
}
use dsp_embedded.Handlers.Catalog.{
  dataset_id, title, catalog_buf_size, catalog_get_json, respond_catalog, catalog_get_handler,
  catalog_request_body, catalog_request_post_handler,
}
use dsp_embedded.Handlers.Serve
use dsp_embedded.Handlers.Serve.{
  Endpoint, offers, terminates, agrees, negotiation, starts, completes, transfer, Call, handle,
  serve,
}
use dsp_embedded.Handlers.Heap.Negotiation.{
  blocks_of, offers_body_frees, terminate_body_frees, agree_id_frees, neg_get_id_frees,
}
use dsp_embedded.Handlers.Heap.Transfer.{start_body_frees, complete_id_frees, xfer_get_id_frees}
pub mod Negotiation
pub mod Transfer

module _ (J : CJson) (A : Accounting J) where
  respond_catalog_frees :
      (c : Connector J) (r : Built J) → blocks_of J A (respond_catalog J c r).1 ≡ A.live r.2
  unfolding respond_catalog
  respond_catalog_frees c (build_ok, resp, h) = refl
  respond_catalog_frees c (null_arg, resp, h) = refl
  respond_catalog_frees c (alloc_failed, resp, h) = refl
  respond_catalog_frees c (buf_too_small, resp, h) = refl

  -- The catalogue after whatever came before it.
  served_catalog_frees :
      (c : Connector J) (h : J.Heap) (stack : Text)
      → blocks_of J A
          (respond_catalog J
            (record c { heap = h })
            (catalog_get_json J h (some stack) catalog_buf_size)).1
        ≡ A.live h
  unfolding catalog_get_json build
  served_catalog_frees c h stack =
      respond_catalog_frees (record c { heap = h })
        (build_catalog J h (some stack) catalog_buf_size (some dataset_id) (some title))
      ∙ build_frees J A h (some stack) catalog_buf_size (catalog (some dataset_id) (some title))

  catalog_request_body_frees :
      (c : Connector J) (stack : Text) (body : Option Text)
      → blocks_of J A (catalog_request_body J c stack body).1 ≡ blocks_of J A c
  unfolding catalog_request_body validate
  catalog_request_body_frees c stack none = refl
  catalog_request_body_frees c stack (some body) =
      let v = validate_catalog_request J c.heap (some body) in
      let same : A.live v.1 ≡ A.live c.heap = validate_frees J A catalog_request c.heap body in
      elim (Bool-cases (is_msg_ok v.0)) [
        | inr e ↦ rw e same
        | inl e ↦ rw e (served_catalog_frees c v.1 stack ∙ same)
      ]

  handle_frees :
      (c : Connector J) (e : Endpoint) (stack : Text) (req : Request)
      → blocks_of J A (handle J c e stack req).1 ≡ blocks_of J A c
  unfolding handle offers_post_handler terminate_post_handler agree_post_handler neg_get_handler
      xfer_start_post_handler xfer_complete_post_handler xfer_get_handler catalog_get_handler
      catalog_request_post_handler
  handle_frees c offers stack req = offers_body_frees J A c stack (req.recv (buf_size - 1))
  handle_frees c terminates stack req = terminate_body_frees J A c stack (req.recv (buf_size - 1))
  handle_frees c agrees stack req = agree_id_frees J A c stack (extract_neg_id req.uri pid_size)
  handle_frees c negotiation stack req =
      neg_get_id_frees J A c stack (extract_neg_id req.uri pid_size)
  handle_frees c starts stack req = start_body_frees J A c stack (req.recv (buf_size - 1))
  handle_frees c completes stack req =
      complete_id_frees J A c stack (extract_xfer_id req.uri pid_size)
  handle_frees c transfer stack req =
      xfer_get_id_frees J A c stack (extract_xfer_id req.uri pid_size)
  handle_frees c Serve.catalog stack req = served_catalog_frees c c.heap stack
  handle_frees c Serve.catalog_request stack req =
      catalog_request_body_frees c stack (req.recv (catalog_buf_size - 1))

  -- Under the accounting of cJSON, every sequence of requests leaves as many blocks of its heap
  -- allocated as it found, whatever the requests carry.
  pub serve_frees : (rs : List Call) (c : Connector J) → A.live (serve J c rs).heap ≡ A.live c.heap
  unfolding serve
  serve_frees [] c = refl
  serve_frees (r ∷ rs) c =
      serve_frees rs (handle J c r.endpoint r.stack r.req).1
      ∙ handle_frees c r.endpoint r.stack r.req
