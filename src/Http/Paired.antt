-- ===== src/Http/Paired.antt =====
-- The running flag of dsp_http.c and its server.
use dsp_embedded.Prelude.{
  ℕ, ◌≡◌, refl, inl, inr, Bool, true, false, not, Option, none, some, set, if◌then◌else◌,
  find_index, Option-cases, Text,
}
use dsp_embedded.Esp.{EspErr, is_ok, ok, invalid_state}
use dsp_embedded.Http.{
  Httpd, Http, HttpMethod, Route, is_free, has_server, live_server, install, new_route, start, stop,
  apply_routes, register_handler,
}

-- The flag of dsp_http says whether there is a server.
abbrev pub IsPaired : (h : Httpd) → Http h → Type 0
IsPaired h x = x.running ≡ has_server h x.server

module _ (h : Httpd) where
  pub stopped_server :
      (x : Http h) → IsPaired h x → ((stop h x).server ≡ none) × ((stop h x).running ≡ false)
  unfolding stop
  stopped_server x i = without x.server x.running i
    where
      without :
          (s : Option h.Server) (r : Bool)
          → r ≡ has_server h s
          → let y : Http h = record x { server = s; running = r } in
            ((stop h y).server ≡ none) × ((stop h y).running ≡ false)
      without none r i = rw i (refl, refl)
      without (some s) r i = rw i (refl, refl)

  pub either_http :
      (b : Bool) (x y : EspErr × Http h)
      → IsPaired h x.1
      → IsPaired h y.1
      → IsPaired h (if b then x else y).1
  either_http true x y i j = i
  either_http false x y i j = j

  installed-IsPaired :
      (x : Http h) (k : ℕ) (r : Route)
      → IsPaired h x
      → IsPaired h (install h x k r (live_server h x)).1
  installed-IsPaired x k r i = talks x.server x.running i
    where
      talks :
          (s : Option h.Server) (b : Bool)
          → b ≡ has_server h s
          → let y : Http h = record x { server = s; running = b } in
            IsPaired h (install h y k r (live_server h y)).1
      talks none b i = rw i refl
      talks (some s) b i = rw i (
          either_http (is_ok (h.register s r).0)
            (
              ok,
              record x {
                routes = set x.routes k r;
                server = some (h.register s r).1;
                running = true;
              },
            )
            (
              (h.register s r).0,
              record x {
                routes = set x.routes k (record r { used = false });
                server = some (h.register s r).1;
                running = true;
              },
            )
            refl refl)

  pub start-IsPaired : (x : Http h) → IsPaired h x → IsPaired h (start h x).1
  unfolding start
  start-IsPaired x i =
      let up : Http h = record x {
        server = some (apply_routes h x.routes h.fresh);
        running = true;
      } in
      let rest = if not (is_ok h.start_status) then (h.start_status, x) else (ok, up) in
      either_http x.running (invalid_state, x) rest i
        (either_http (not (is_ok h.start_status)) (h.start_status, x) (ok, up) i refl)

  pub register_handler-IsPaired :
      (x : Http h) (uri : Option Text) (method : HttpMethod) (handler : Option ℕ)
      → IsPaired h x
      → IsPaired h (register_handler h x uri method handler).1
  unfolding register_handler
  register_handler-IsPaired x none method handler i = i
  register_handler-IsPaired x (some uri) method none i = i
  register_handler-IsPaired x (some uri) method (some handler) i =
      elim (Option-cases (find_index is_free x.routes)) [
        | inl full ↦ rw (full, register_handler) i
        | inr (k, free) ↦
            rw (free, register_handler) (installed-IsPaired x k (new_route uri method handler) i)
      ]
