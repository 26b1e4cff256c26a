-- ===== src/Handlers/Backed.antt =====
-- What every request keeps of the two slot tables (components/dsp_neg, components/dsp_xfer).
use dsp_embedded.Prelude.{
  ℕ, zero, suc, ◌-◌, ◌<◌, ◌≡◌, refl, sym, ap, subst, ◌∙◌, inl, inr, Bool, true, false, not, Option,
  none, some, List, [], ◌∷◌, arith, if◌then◌else◌, ◌++◌, get_elem?, set, length, take, take_of_le,
  Bool-cases, ltb, Text, codes, replicate, ℤ, pos, negsuc,
}
use dsp_embedded.Json.{CJson, get_string, string_value, copied}
use dsp_embedded.Jsonld.{field_process_id, provider_id}
use dsp_embedded.Msg.{validate_catalog_request, validate_transfer_request}
use dsp_embedded.Build.{Built, build_ok, null_arg, alloc_failed, buf_too_small}
use dsp_embedded.Neg
use dsp_embedded.Neg.{NegState, agreed, Negotiations, find_by_cpid}
use dsp_embedded.Neg.Lifecycle.{init-IsValid, boot-IsValid}
use dsp_embedded.Xfer
use dsp_embedded.Xfer.{XferState, XferEvent, XferEntry, Transfers, find_by_pid, is_transferring}
use dsp_embedded.Xfer.{initial, transferring, completed, failed}
use dsp_embedded.Xfer.Slots.{
  Creates, full, takes, create-Creates, Applies, missing, moves, apply-Applies, fire_table,
}
use dsp_embedded.Handlers.{
  Request, Reply, Connector, buf_size, pid_size, is_msg_ok, read_pid, text_of,
}
use dsp_embedded.Handlers.Tables.{
  AgreedIn, create-Grows, apply-Grows, Backing, IsBacked, found-Backing, AreSound, AreSound-Grows,
  AreSound-set, get_elem?-IsBacked, AllBacked,
}
use dsp_embedded.Handlers.Negotiation.{
  respond, respond_event, offers_slot, offers_pid, offers_message, offers_body, offers_post_handler,
  terminate_slot, terminate_pid, terminate_message, terminate_body, terminate_post_handler,
  agree_state, agree_slot, agree_id, agree_post_handler, neg_get_slot, neg_get_id, neg_get_handler,
  is_agreed, state_str, extract_neg_id,
}
use dsp_embedded.Handlers.Transfer.{
  respond_start, respond_completion, start_slot, start_agreed, start_pid, start_message, start_body,
  xfer_start_post_handler, complete_slot, complete_id, xfer_complete_post_handler, respond_state,
  xfer_get_slot, xfer_get_id, xfer_get_handler, extract_xfer_id,
}
use dsp_embedded.Handlers.Catalog.{
  catalog_buf_size, catalog_get_json, respond_catalog, catalog_get_handler, catalog_request_body,
  catalog_request_post_handler,
}
use dsp_embedded.Handlers.Serve.{Endpoint, Call, handle, serve}
use dsp_embedded.Handlers.Serve
use dsp_embedded.Handlers.Backed.Negotiation.{
  HasSound, offers_body-HasSound, terminate_body-HasSound, agree_id-HasSound, neg_get_id-HasSound,
}
use dsp_embedded.Handlers.Backed.Transfer.{
  start_body-HasSound, complete_id-HasSound, xfer_get_id-HasSound,
}
pub mod Negotiation
pub mod Transfer

module _ (J : CJson) (max : ℕ) (W : Text → Type 0) where
  respond_catalog-HasSound :
      (c : Connector J) (r : Built J)
      → HasSound J max W c
      → HasSound J max W (respond_catalog J c r).1
  unfolding respond_catalog
  respond_catalog-HasSound c (build_ok, resp, h) s = s
  respond_catalog-HasSound c (null_arg, resp, h) s = s
  respond_catalog-HasSound c (alloc_failed, resp, h) s = s
  respond_catalog-HasSound c (buf_too_small, resp, h) s = s

  catalog_request_body-HasSound :
      (c : Connector J) (stack : Text) (body : Option Text)
      → HasSound J max W c
      → HasSound J max W (catalog_request_body J c stack body).1
  unfolding catalog_request_body
  catalog_request_body-HasSound c stack none s = s
  catalog_request_body-HasSound c stack (some body) s =
      let v = validate_catalog_request J c.heap (some body) in
      elim (Bool-cases (is_msg_ok v.0)) [
        | inr e ↦ rw e s
        | inl e ↦ rw e (
            respond_catalog-HasSound (record c { heap = v.1 })
              (catalog_get_json J v.1 (some stack) catalog_buf_size) s)
      ]

  handle-HasSound :
      (c : Connector J) (e : Endpoint) (stack : Text) (req : Request)
      → ((p : Text) → AgreedIn c.neg.table p → W p)
      → HasSound J max W c
      → HasSound J max W (handle J c e stack req).1
  unfolding handle offers_post_handler terminate_post_handler agree_post_handler neg_get_handler
      xfer_start_post_handler xfer_complete_post_handler xfer_get_handler catalog_get_handler
      catalog_request_post_handler
  handle-HasSound c Serve.offers stack req w s =
      offers_body-HasSound J max W c stack (req.recv (buf_size - 1)) s
  handle-HasSound c Serve.terminates stack req w s =
      terminate_body-HasSound J max W c stack (req.recv (buf_size - 1)) s
  handle-HasSound c Serve.agrees stack req w s =
      agree_id-HasSound J max W c stack (extract_neg_id req.uri pid_size) s
  handle-HasSound c Serve.negotiation stack req w s =
      neg_get_id-HasSound J max W c stack (extract_neg_id req.uri pid_size) s
  handle-HasSound c Serve.starts stack req w s =
      start_body-HasSound J max W c stack (req.recv (buf_size - 1)) w s
  handle-HasSound c Serve.completes stack req w s =
      complete_id-HasSound J max W c stack (extract_xfer_id req.uri pid_size) s
  handle-HasSound c Serve.transfer stack req w s =
      xfer_get_id-HasSound J max W c stack (extract_xfer_id req.uri pid_size) s
  handle-HasSound c Serve.catalog stack req w s =
      respond_catalog-HasSound c (catalog_get_json J c.heap (some stack) catalog_buf_size) s
  handle-HasSound c Serve.catalog_request stack req w s =
      catalog_request_body-HasSound c stack (req.recv (catalog_buf_size - 1)) s

  serve-HasSound :
      (rs : List Call) (c : Connector J)
      → ((before after : List Call)
          → rs ≡ before ++ after
          → (p : Text) → AgreedIn (serve J c before).neg.table p
          → W p)
      → HasSound J max W c
      → HasSound J max W (serve J c rs)
  unfolding serve
  serve-HasSound [] c w s = s
  serve-HasSound (r ∷ rs) c w s =
      serve-HasSound rs (handle J c r.endpoint r.stack r.req).1
        (λ before after e. w (r ∷ before) after (ap (◌∷◌ r) e))
        (handle-HasSound c r.endpoint r.stack r.req (w [] (r ∷ rs) refl) s)

AllBacked-boot :
    (W : Text → Type 0) (t : List Neg.NegEntry) (k : ℕ)
    → AllBacked W t (Xfer.wipe (replicate k Xfer.zero_entry))
AllBacked-boot W t zero = tt
AllBacked-boot W t (suc k) = (inl refl, AllBacked-boot W t k)

-- The connector after dsp_neg_init and dsp_xfer_init at boot, with tables of `max` and `k` slots.
abbrev pub up : (J : CJson) → ℕ → ℕ → J.Heap → Connector J
up J max k h = record {
  neg = (Neg.init (Neg.boot max)).1;
  xfer = (Xfer.init (Xfer.boot k)).1;
  heap = h;
}

-- A negotiation of the process ID was AGREED at first or after one of the requests.
abbrev pub WasAgreed : (J : CJson) → Connector J → List Call → Text → Type 0
WasAgreed J c rs pid =
    (before : List Call) × (after : List Call) × (rs ≡ before ++ after)
    × AgreedIn (serve J c before).neg.table pid

-- After any sequence of requests to an initialised connector, the negotiation table is well-formed,
-- and every transfer in use has the process ID of a negotiation in use that was AGREED before or after
-- one of these requests, and is not in a state before AGREED now.
pub serve-up-AreSound :
    (J : CJson) (max k : ℕ) (h : J.Heap) (rs : List Call)
    → AreSound
        (WasAgreed J (up J max k h) rs)
        max
        (serve J (up J max k h) rs).neg
        (serve J (up J max k h) rs).xfer
unfolding Xfer.init
serve-up-AreSound J max k h rs =
    serve-HasSound J max (WasAgreed J (up J max k h) rs) rs (up J max k h)
      (λ before after e p a. (before, after, e, a))
      (record {
        well_formed = init-IsValid (boot-IsValid max);
        backed = AllBacked-boot (WasAgreed J (up J max k h) rs) (Neg.init (Neg.boot max)).1.table k;
      })
