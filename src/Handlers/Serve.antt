-- ===== src/Handlers/Serve.antt =====
-- The requests that the server hands to the handlers, one after the other.
use dsp_embedded.Prelude.{List, [], ◌∷◌, Text}
use dsp_embedded.Json.{CJson}
use dsp_embedded.Handlers.{Request, Reply, Connector}
use dsp_embedded.Handlers.Negotiation.{
  offers_post_handler, terminate_post_handler, agree_post_handler, neg_get_handler,
}
use dsp_embedded.Handlers.Transfer.{
  xfer_start_post_handler, xfer_complete_post_handler, xfer_get_handler,
}
use dsp_embedded.Handlers.Catalog.{catalog_get_handler, catalog_request_post_handler}

-- The handlers, by the route under which they are registered.
pub data Endpoint : Type 0 where
  offers terminates agrees negotiation starts completes transfer catalog catalog_request : Endpoint

-- A request as it reaches a handler, with what stands in the buffer for the response.
pub record Call : Type 0 where
  pub endpoint : Endpoint
  pub req : Request
  pub stack : Text

module _ (J : CJson) where
  unfoldable pub handle : Connector J → Endpoint → Text → Request → Reply × Connector J
  handle c offers stack req = offers_post_handler J c stack req
  handle c terminates stack req = terminate_post_handler J c stack req
  handle c agrees stack req = agree_post_handler J c stack req
  handle c negotiation stack req = neg_get_handler J c stack req
  handle c starts stack req = xfer_start_post_handler J c stack req
  handle c completes stack req = xfer_complete_post_handler J c stack req
  handle c transfer stack req = xfer_get_handler J c stack req
  handle c catalog stack req = catalog_get_handler J c stack req
  handle c catalog_request stack req = catalog_request_post_handler J c stack req

  unfoldable pub serve : Connector J → List Call → Connector J
  serve c [] = c
  serve c (r ∷ rs) = serve (handle c r.endpoint r.stack r.req).1 rs
