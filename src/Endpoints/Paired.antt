-- ===== src/Endpoints/Paired.antt =====
-- The registrations keep the running flag of dsp_http.c with its server.
use dsp_embedded.Prelude.{Bool, not, some, List, [], ◌∷◌, codes, if◌then◌else◌}
use dsp_embedded.Esp.{is_ok, invalid_state, not_supported}
use dsp_embedded.Http.{Httpd, Http, http_get, http_post, register_handler}
use dsp_embedded.Http.Paired.{IsPaired, either_http, register_handler-IsPaired}
use dsp_embedded.Endpoints.{
  Endpoint, register_all, neg_endpoints, xfer_endpoints, neg_register_handlers,
  xfer_register_handlers, catalog_register_handler, catalog_register_request_handler,
  catalog_get_handler, catalog_request_post_handler,
}

module _ (h : Httpd) where
  register_all-IsPaired :
      (es : List Endpoint) (x : Http h) → IsPaired h x → IsPaired h (register_all h es x).1
  unfolding register_all
  register_all-IsPaired [] x i = i
  register_all-IsPaired (e ∷ es) x i =
      let r = register_handler h x (some e.uri) e.method (some e.handler) in
      let one = register_handler-IsPaired h x (some e.uri) e.method (some e.handler) i in
      either_http h (is_ok r.0) (register_all h es r.1) (r.0, r.1)
        (register_all-IsPaired es r.1 one) one

  pub neg_register_handlers-IsPaired :
      (up with_terminate : Bool) (x : Http h)
      → IsPaired h x
      → IsPaired h (neg_register_handlers h up with_terminate x).1
  unfolding neg_register_handlers
  neg_register_handlers-IsPaired up with_terminate x i =
      let es = neg_endpoints with_terminate in
      either_http h (not up) (invalid_state, x) (register_all h es x) i
        (register_all-IsPaired es x i)

  pub xfer_register_handlers-IsPaired :
      (up : Bool) (x : Http h) → IsPaired h x → IsPaired h (xfer_register_handlers h up x).1
  unfolding xfer_register_handlers
  xfer_register_handlers-IsPaired up x i =
      either_http h (not up) (invalid_state, x) (register_all h xfer_endpoints x) i
        (register_all-IsPaired xfer_endpoints x i)

  pub catalog_register_handler-IsPaired :
      (up : Bool) (x : Http h) → IsPaired h x → IsPaired h (catalog_register_handler h up x).1
  unfolding catalog_register_handler
  catalog_register_handler-IsPaired up x i =
      either_http h (not up) (invalid_state, x)
        (register_handler h x (some (codes "/catalog")) http_get (some catalog_get_handler)) i
        (register_handler-IsPaired h x (some (codes "/catalog")) http_get (some catalog_get_handler)
          i)

  pub catalog_register_request_handler-IsPaired :
      (up on : Bool) (x : Http h)
      → IsPaired h x
      → IsPaired h (catalog_register_request_handler h up on x).1
  unfolding catalog_register_request_handler
  catalog_register_request_handler-IsPaired up on x i =
      let r =
        register_handler h x (some (codes "/catalog/request")) http_post
          (some catalog_request_post_handler) in
      let j =
        register_handler-IsPaired h x (some (codes "/catalog/request")) http_post
          (some catalog_request_post_handler) i in
      either_http h (not up) (invalid_state, x) (if not on then (not_supported, x) else r) i
        (either_http h (not on) (not_supported, x) r i j)
