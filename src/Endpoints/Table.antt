-- ===== src/Endpoints/Table.antt =====
-- What the registrations leave in the route table.
use dsp_embedded.Prelude.{
  ℕ, ◌+◌, ◌≤◌, ◌≡◌, Bool, true, false, List, [], ◌∷◌, ◌++◌, map, length, codes,
}
use dsp_embedded.Esp.{EspErr, ok}
use dsp_embedded.Http.{http_get, http_post, Httpd, Http, Route, new_route}
use dsp_embedded.Http.Routes.{used_routes, IsPacked}
use dsp_embedded.Endpoints.{
  offers_post_handler, agree_post_handler, terminate_post_handler, neg_get_handler,
  xfer_start_post_handler, xfer_complete_post_handler, xfer_get_handler, Endpoint,
}

abbrev pub route_of : Endpoint → Route
route_of e = new_route e.uri e.method e.handler

-- A table that stands still, without a server, with room for `n` more routes.
pub record HasRoom (h : Httpd) (n : ℕ) (x : Http h) : Type 0 where
  pub down : x.running ≡ false
  pub packed : IsPacked x.routes
  pub room : length (used_routes x.routes) + n ≤ length x.routes

record Grown (h : Httpd) (n : ℕ) (x : Http h) (es : List Endpoint) (r : EspErr × Http h)
    : Type 0 where
  fine : r.0 ≡ ok
  left : HasRoom h n r.1
  routes : used_routes r.1.routes ≡ used_routes x.routes ++ map route_of es

-- The routes that the comments of dsp_neg.h and dsp_xfer.h list, with the functions that serve them, in
-- the order of the registrations.
abbrev pub terminate_routes : Bool → List Route
terminate_routes false = []
terminate_routes true =
    new_route (codes "/negotiations/terminate") http_post terminate_post_handler ∷ []

abbrev pub documented : Bool → List Route
documented with_terminate =
    new_route (codes "/negotiations/offers") http_post offers_post_handler
    ∷ new_route (codes "/negotiations/*") http_post agree_post_handler
    ∷ (terminate_routes with_terminate
        ++ (new_route (codes "/negotiations/*") http_get neg_get_handler
            ∷ new_route (codes "/transfers/start") http_post xfer_start_post_handler
            ∷ new_route (codes "/transfers/*") http_post xfer_complete_post_handler
            ∷ new_route (codes "/transfers/*") http_get xfer_get_handler
            ∷ []))
