-- ===== src/Http.antt =====
-- components/dsp_http/dsp_http.c and include/dsp_http.h, as built for the device: the table of routes
-- over the HTTP server of ESP-IDF, which is a parameter. The table is a list whose length is
-- DSP_HTTP_MAX_ROUTES; a handler function is kept as a number that names it.
use dsp_embedded.Prelude.{
  ℕ, Bool, true, false, not, ◌||◌, Option, none, some, List, [], ◌∷◌, if◌then◌else◌, set, replicate,
  find_index, Text, strncpy_field,
}
use dsp_embedded.Esp.{EspErr, is_ok, ok, no_mem, invalid_arg, invalid_state}
pub mod Routes
pub mod History
pub mod Paired
mod Tests

-- `dsp_http_method_t`.
pub data HttpMethod : Type 0 where
  http_get http_post http_put http_delete : HttpMethod

-- `route_entry_t`. The URI is a `char[64]`.
pub record Route : Type 0 where
  pub uri : Text
  pub method : HttpMethod
  pub handler : ℕ
  pub used : Bool

abbrev pub zero_route : Route
zero_route = record { uri = []; method = http_get; handler = 0; used = false }

-- The server of ESP-IDF: `httpd_start`, with the server that it gives, and
-- `httpd_register_uri_handler`.
pub record Httpd : Type 1 where
  pub Server : Type 0
  pub start_status : EspErr
  pub fresh : Server
  pub register : Server → Route → EspErr × Server

-- The static state, `s_routes`, `s_server` and `s_running`.
pub record Http (h : Httpd) : Type 0 where
  pub routes : List Route
  pub server : Option h.Server
  pub running : Bool

abbrev pub boot : (h : Httpd) → ℕ → Http h
boot h max = record { routes = replicate max zero_route; server = none; running = false }

abbrev pub is_free : Route → Bool
is_free r = not r.used

-- The loop of `dsp_http_start`: a route that is refused is skipped.
pub apply_routes : (h : Httpd) → List Route → h.Server → h.Server
apply_routes h [] s = s
apply_routes h (r ∷ rs) s = apply_routes h rs (if r.used then (h.register s r).1 else s)

-- `dsp_http_start`.
pub start : (h : Httpd) → Http h → EspErr × Http h
start h x =
    if x.running
    then (invalid_state, x)
    else if not (is_ok h.start_status)
    then (h.start_status, x)
    else (ok, record x { server = some (apply_routes h x.routes h.fresh); running = true })

abbrev pub has_server : (h : Httpd) → Option h.Server → Bool
has_server h none = false
has_server h (some s) = true

-- `dsp_http_stop`.
pub stop : (h : Httpd) → Http h → Http h
stop h x =
    if not x.running || not (has_server h x.server)
    then x
    else record x { server = none; running = false }

abbrev pub new_route : Text → HttpMethod → ℕ → Route
new_route uri method handler = record {
  uri = strncpy_field 64 uri;
  method = method;
  handler = handler;
  used = true;
}

-- The table is filled; on a running server the route is registered, and its slot given back if the
-- server refuses it.
abbrev pub install : (h : Httpd) → Http h → ℕ → Route → Option h.Server → EspErr × Http h
install h x i r none = (ok, record x { routes = set x.routes i r })
install h x i r (some s) =
    let (err, s') = h.register s r in
    if is_ok err
    then (ok, record x { routes = set x.routes i r; server = some s' })
    else (err, record x { routes = set x.routes i (record r { used = false }); server = some s' })

-- A server is only talked to while it runs.
abbrev pub live_server : (h : Httpd) → Http h → Option h.Server
live_server h x = if x.running then x.server else none

-- `dsp_http_register_handler`; NULL pointers are `none`.
unfoldable pub register_handler :
    (h : Httpd) → Http h → Option Text → HttpMethod → Option ℕ → EspErr × Http h
register_handler h x none method handler = (invalid_arg, x)
register_handler h x (some uri) method none = (invalid_arg, x)
register_handler h x (some uri) method (some handler) = elim (find_index is_free x.routes) [
  | none ↦ (no_mem, x)
  | some i ↦ install h x i (new_route uri method handler) (live_server h x)
]
