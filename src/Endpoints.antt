-- ===== src/Endpoints.antt =====
-- The functions that put the endpoints of the protocol into the route table: register_handlers of
-- components/dsp_neg/dsp_neg.c and components/dsp_xfer/dsp_xfer.c, and the life cycle and the
-- registrations of components/dsp_catalog/dsp_catalog.c, as built for the device. A handler function
-- is the number of its name; whether a module is initialised, and which endpoints the configuration
-- enables, are arguments.
use dsp_embedded.Prelude.{
  ℕ, Bool, true, false, not, none, some, List, [], ◌∷◌, ◌++◌, if◌then◌else◌, Text, codes,
}
use dsp_embedded.Esp.{EspErr, is_ok, ok, invalid_state, not_supported}
use dsp_embedded.Http.{Httpd, Http, HttpMethod, http_get, http_post, register_handler}
pub mod Table
pub mod Paired
mod Tests

-- The names of the handlers.
abbrev pub offers_post_handler : ℕ
offers_post_handler = 1

abbrev pub agree_post_handler : ℕ
agree_post_handler = 2

abbrev pub terminate_post_handler : ℕ
terminate_post_handler = 3

abbrev pub neg_get_handler : ℕ
neg_get_handler = 4

abbrev pub xfer_start_post_handler : ℕ
xfer_start_post_handler = 5

abbrev pub xfer_complete_post_handler : ℕ
xfer_complete_post_handler = 6

abbrev pub xfer_get_handler : ℕ
xfer_get_handler = 7

abbrev pub catalog_get_handler : ℕ
catalog_get_handler = 8

abbrev pub catalog_request_post_handler : ℕ
catalog_request_post_handler = 9

-- The arguments of one registration.
pub record Endpoint : Type 0 where
  pub uri : Text
  pub method : HttpMethod
  pub handler : ℕ

-- Registrations one after the other, up to the first error.
pub register_all : (h : Httpd) → List Endpoint → Http h → EspErr × Http h
register_all h [] x = (ok, x)
register_all h (e ∷ es) x =
    let (err, x') = register_handler h x (some e.uri) e.method (some e.handler) in
    let rest = register_all h es x' in if is_ok err then rest else (err, x')

abbrev pub neg_endpoints : Bool → List Endpoint
neg_endpoints with_terminate =
    record { uri = codes "/negotiations/offers"; method = http_post; handler = offers_post_handler }
      ∷ record { uri = codes "/negotiations/*"; method = http_post; handler = agree_post_handler }
      ∷ (if with_terminate
          then record {
            uri = codes "/negotiations/terminate";
            method = http_post;
            handler = terminate_post_handler;
          }
            ∷ []
          else [])
    ++ (record { uri = codes "/negotiations/*"; method = http_get; handler = neg_get_handler } ∷ [])

-- `dsp_neg_register_handlers`.
pub neg_register_handlers : (h : Httpd) → Bool → Bool → Http h → EspErr × Http h
neg_register_handlers h initialized with_terminate x =
    if not initialized then (invalid_state, x) else register_all h (neg_endpoints with_terminate) x

abbrev pub xfer_endpoints : List Endpoint
xfer_endpoints =
    record { uri = codes "/transfers/start"; method = http_post; handler = xfer_start_post_handler }
    ∷ record {
      uri = codes "/transfers/*";
      method = http_post;
      handler = xfer_complete_post_handler;
    }
    ∷ record { uri = codes "/transfers/*"; method = http_get; handler = xfer_get_handler }
    ∷ []

-- `dsp_xfer_register_handlers`.
pub xfer_register_handlers : (h : Httpd) → Bool → Http h → EspErr × Http h
xfer_register_handlers h initialized x =
    if not initialized then (invalid_state, x) else register_all h xfer_endpoints x

-- `dsp_catalog_init`, `dsp_catalog_deinit` and `dsp_catalog_is_initialized`, on the module's one flag.
unfoldable pub catalog_init : Bool → EspErr × Bool
catalog_init initialized = (ok, true)

unfoldable pub catalog_deinit : Bool → Bool
catalog_deinit initialized = false

abbrev pub catalog_is_initialized : Bool → Bool
catalog_is_initialized initialized = initialized

-- `dsp_catalog_register_handler`.
pub catalog_register_handler : (h : Httpd) → Bool → Http h → EspErr × Http h
catalog_register_handler h initialized x =
    if not initialized
    then (invalid_state, x)
    else register_handler h x (some (codes "/catalog")) http_get (some catalog_get_handler)

-- `dsp_catalog_register_request_handler`.
pub catalog_register_request_handler : (h : Httpd) → Bool → Bool → Http h → EspErr × Http h
catalog_register_request_handler h initialized with_request x =
    if not initialized
    then (invalid_state, x)
    else if not with_request
    then (not_supported, x)
    else register_handler h x (some (codes "/catalog/request")) http_post
        (some catalog_request_post_handler)
