-- ===== src/Protocol/Tests.antt =====
-- dsp_protocol at a concrete setting.
use dsp_embedded.Prelude.{◌≡◌, refl, Bool, true, false, some, [], ◌∷◌}
use dsp_embedded.Esp.{ok, fail}
use dsp_embedded.Shared.{zero_shared}
use dsp_embedded.Neg
use dsp_embedded.Xfer
use dsp_embedded.Http
use dsp_embedded.Http.{Httpd}
use dsp_embedded.Protocol.{Protocol, Setting, protocol_init, stop}
use dsp_embedded.Protocol.Lifecycle.{IsDown, Outcome, protocol_init-Outcome, stop-protocol_init}

-- A server that takes every route.
abbrev willing : Httpd
willing = record { Server = Bool; start_status = ok; fresh = true; register = λ s r. (ok, s) }

-- A device with its files, on which TLS cannot be set up.
abbrev setting : Setting
setting = record {
  blobs = record { cert = 48 ∷ []; key = 49 ∷ []; parses = true };
  tls_status = fail;
  with_request = true;
  with_terminate = false;
}

abbrev cold : Protocol willing
cold = record {
  sh = some zero_shared;
  running = false;
  task = true;
  identity = record { provisioned = false; loaded = false; chains = 0 };
  tls = false;
  catalog = false;
  neg = Neg.boot 4;
  xfer = Xfer.boot 2;
  http = Http.boot willing 8;
}

protocol_init-Outcome_example : Outcome willing setting cold (protocol_init willing setting cold)
protocol_init-Outcome_example = protocol_init-Outcome willing setting cold

stop-protocol_init_example :
    IsDown willing (stop willing (protocol_init willing setting cold).1).1
    × ((stop willing (protocol_init willing setting cold).1).1.identity.chains
        ≡ cold.identity.chains)
stop-protocol_init_example = stop-protocol_init willing setting cold refl refl
