-- ===== src/Http/Tests.antt =====
-- dsp_http at concrete inputs.
use dsp_embedded.Prelude.{
  ◌≡◌, refl, true, some, List, [], ◌∷◌, ◌++◌, if◌then◌else◌, arith, ltb, length, Text,
}
use dsp_embedded.Esp.{ok, no_mem}
use dsp_embedded.Http.{
  Httpd, Route, boot, http_get, http_post, start, stop, apply_routes, register_handler,
}
use dsp_embedded.Http.History.{
  HttpCall, registers, starts, stops, step, run, IsValid, RefusesCleanly, http_run-IsValid,
}

-- A server with room for two handlers.
abbrev small : Httpd
small = record {
  Server = List Route;
  start_status = ok;
  fresh = [];
  register = λ s r. if ltb (length s) 2 then (ok, s ++ (r ∷ [])) else (no_mem, s);
}

small-RefusesCleanly : RefusesCleanly small
small-RefusesCleanly s r e = ground arith

abbrev catalog : Text
catalog = 47 ∷ 99 ∷ []

abbrev calls : List HttpCall
calls =
    registers (some catalog) http_get (some 1)
    ∷ starts
    ∷ registers (some catalog) http_post (some 2)
    ∷ registers (some catalog) http_get (some 3)
    ∷ stops
    ∷ starts
    ∷ []

test_running : (run small (boot small 4) calls).running ≡ true
unfolding run step start stop register_handler apply_routes
test_running = refl

http_run-IsValid_example : IsValid small 4 (run small (boot small 4) calls)
http_run-IsValid_example = http_run-IsValid small 4 calls small-RefusesCleanly
