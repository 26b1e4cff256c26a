-- ===== src/Endpoints/Tests.antt =====
-- The registrations at a concrete table.
use dsp_embedded.Prelude.{List, [], ◌∷◌}
use dsp_embedded.Esp.{ok}
use dsp_embedded.Http.{Httpd, Http, Route, boot}

abbrev lenient : Httpd
lenient = record {
  Server = List Route;
  start_status = ok;
  fresh = [];
  register = λ s r. (ok, r ∷ s);
}

abbrev table : Http lenient
table = boot lenient 7
