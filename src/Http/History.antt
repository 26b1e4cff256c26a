-- ===== src/Http/History.antt =====
-- Histories of calls to dsp_http.
use dsp_embedded.Prelude.{
  ℕ, zero, suc, ◌≡◌, refl, ap, sym, ◌∙◌, Bool, true, false, not, ◌||◌, Option, none, some, List, [],
  ◌∷◌, if◌then◌else◌, set, length, length-set, length-replicate, replicate, find_index,
  Option-cases, Bool-cases, inl, inr, Text,
}
use dsp_embedded.Esp.{EspErr, is_ok}
use dsp_embedded.Http.{
  HttpMethod, Route, zero_route, Httpd, Http, boot, is_free, start, stop, new_route, install,
  live_server, register_handler, has_server,
}
use dsp_embedded.Http.Routes.{
  used_routes, serving, serving-append, apply_routes-serving, IsPacked, IsPacked-of_none, Fills,
  set-Fills,
}

-- What the server has to know: the routes of the table, if it runs.
abbrev pub Serves : (h : Httpd) → List Route → Option h.Server → Bool → Type 0
Serves h rs server false = Unit {0}
Serves h rs none true = ⊥
Serves h rs (some s) true = s ≡ serving h h.fresh (used_routes rs)

pub record IsValid (h : Httpd) (max : ℕ) (x : Http h) : Type 0 where
  pub sized : length x.routes ≡ max
  pub packed : IsPacked x.routes
  pub serves : Serves h x.routes x.server x.running

-- A refused registration leaves the server as it was.
abbrev pub RefusesCleanly : Httpd → Type 0
RefusesCleanly h =
    (s : h.Server) (r : Route) → is_ok (h.register s r).0 ≡ false → (h.register s r).1 ≡ s

either-IsValid :
    (h : Httpd) (max : ℕ) (b : Bool) (w u : EspErr × Http h)
    → IsValid h max w.1
    → IsValid h max u.1
    → IsValid h max (if b then w else u).1
either-IsValid h max true w u v v' = v
either-IsValid h max false w u v v' = v'

start-IsValid : (h : Httpd) (max : ℕ) (x : Http h) → IsValid h max x → IsValid h max (start h x).1
unfolding start
start-IsValid h max x v = either-IsValid h max x.running _ _ v (
    either-IsValid h max (not (is_ok h.start_status)) _ _ v (record {
      sized = v.sized;
      packed = v.packed;
      serves = apply_routes-serving h x.routes h.fresh;
    }))

stopped-IsValid :
    (h : Httpd) (max : ℕ) (b : Bool) (x : Http h)
    → IsValid h max x
    → IsValid h max (if b then x else record x { server = none; running = false })
stopped-IsValid h max true x v = v
stopped-IsValid h max false x v = record { sized = v.sized; packed = v.packed; serves = tt }

stop-IsValid : (h : Httpd) (max : ℕ) (x : Http h) → IsValid h max x → IsValid h max (stop h x)
unfolding stop
stop-IsValid h max x v = stopped-IsValid h max (not x.running || not (has_server h x.server)) x v

-- The server after one more registration, accepted or refused.
served :
    (h : Httpd) (s : h.Server) (rs : List Route) (i : ℕ) (r : Route)
    → s ≡ serving h h.fresh (used_routes rs)
    → r.used ≡ true
    → Fills rs i r
    → (h.register s r).1 ≡ serving h h.fresh (used_routes (set rs i r))
served h s rs i r e u f =
    ap (λ t. (h.register t r).1) e
    ∙ sym (serving-append h h.fresh (used_routes rs) r)
    ∙ ap (serving h h.fresh) (sym (f.taken u))

install-IsValid :
    (h : Httpd) (max : ℕ) (rs : List Route) (server : Option h.Server) (running : Bool) (i : ℕ)
    (r : Route)
    → RefusesCleanly h
    → r.used ≡ true
    → find_index is_free rs ≡ some i
    → IsValid h max (record { routes = rs; server = server; running = running })
    → let x : Http h = record { routes = rs; server = server; running = running } in
      IsValid h max (install h x i r (live_server h x)).1
install-IsValid h max rs server false i r clean u f v = record {
  sized = length-set rs i r ∙ v.sized;
  packed = (set-Fills rs i r v.packed f).packed;
  serves = tt;
}
install-IsValid h max rs none true i r clean u f v = absurd v.serves
install-IsValid h max rs (some s) true i r clean u f v =
    elim (Bool-cases (is_ok (h.register s r).0)) [
      | inl accepted ↦ rw accepted (record {
        sized = length-set rs i r ∙ v.sized;
        packed = (set-Fills rs i r v.packed f).packed;
        serves = served h s rs i r v.serves u (set-Fills rs i r v.packed f);
      })
      | inr refused ↦
          let back : Route = record r { used = false } in
          let fills = set-Fills rs i back v.packed f in
          rw refused (record {
            sized = length-set rs i back ∙ v.sized;
            packed = fills.packed;
            serves =
                clean s r refused ∙ v.serves ∙ ap (serving h h.fresh) (sym (fills.given_back refl));
          })
    ]

register_handler-IsValid :
    (h : Httpd) (max : ℕ) (x : Http h) (uri : Option Text) (method : HttpMethod)
    (handler : Option ℕ)
    → RefusesCleanly h
    → IsValid h max x
    → IsValid h max (register_handler h x uri method handler).1
unfolding register_handler
register_handler-IsValid h max x none method handler clean v = v
register_handler-IsValid h max x (some uri) method none clean v = v
register_handler-IsValid h max x (some uri) method (some handler) clean v =
    elim (Option-cases (find_index is_free x.routes)) [
      | inl n ↦ rw (n, register_handler) v
      | inr (i, f) ↦
          rw (f, register_handler)
            (install-IsValid h max x.routes x.server x.running i (new_route uri method handler)
              clean refl f v)
    ]

-- The calls that change the module.
pub data HttpCall : Type 0 where
  registers : Option Text → HttpMethod → Option ℕ → HttpCall
  starts stops : HttpCall

unfoldable pub step : (h : Httpd) → Http h → HttpCall → Http h
step h x (registers uri method handler) = (register_handler h x uri method handler).1
step h x starts = (start h x).1
step h x stops = stop h x

unfoldable pub run : (h : Httpd) → Http h → List HttpCall → Http h
run h x [] = x
run h x (c ∷ cs) = run h (step h x c) cs

step-IsValid :
    (h : Httpd) (max : ℕ) (x : Http h) (c : HttpCall)
    → RefusesCleanly h
    → IsValid h max x
    → IsValid h max (step h x c)
unfolding step
step-IsValid h max x (registers uri method handler) clean v =
    register_handler-IsValid h max x uri method handler clean v
step-IsValid h max x starts clean v = start-IsValid h max x v
step-IsValid h max x stops clean v = stop-IsValid h max x v

steps-IsValid :
    (h : Httpd) (max : ℕ) (cs : List HttpCall) (x : Http h)
    → RefusesCleanly h
    → IsValid h max x
    → IsValid h max (run h x cs)
unfolding run
steps-IsValid h max [] x clean v = v
steps-IsValid h max (c ∷ cs) x clean v =
    steps-IsValid h max cs (step h x c) clean (step-IsValid h max x c clean v)

used_routes-boot : (n : ℕ) → used_routes (replicate n zero_route) ≡ []
used_routes-boot zero = refl
used_routes-boot (suc n) = used_routes-boot n

-- After any registrations, starts and stops from boot, the table has its size and no gaps, and a
-- server that runs is what a fresh server becomes when the routes of the table, in their order, are
-- registered with it, also those that were registered while it ran or before a restart. A
-- registration that the server refuses must leave it as it was.
pub http_run-IsValid :
    (h : Httpd) (max : ℕ) (cs : List HttpCall)
    → RefusesCleanly h
    → IsValid h max (run h (boot h max) cs)
http_run-IsValid h max cs clean = steps-IsValid h max cs (boot h max) clean (record {
  sized = length-replicate max zero_route;
  packed = IsPacked-of_none (replicate max zero_route) (used_routes-boot max);
  serves = tt;
})
