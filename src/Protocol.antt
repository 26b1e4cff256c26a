-- ===== src/Protocol.antt =====
-- components/dsp_protocol/dsp_protocol.c, as built for the device: start and stop of the protocol
-- stack of the first core. The heap reports are not modelled. Whether FreeRTOS creates the task, the
-- status of `dsp_tls_server_init` and which endpoints the configuration enables are arguments; the TLS
-- context is kept as whether it is set up.
use dsp_embedded.Prelude.{ℕ, Bool, true, false, not, ◌||◌, Option, none, some, List, if◌then◌else◌}
use dsp_embedded.Esp.{EspErr, is_ok, ok, no_mem, invalid_arg, invalid_state}
use dsp_embedded.Shared.{Shared}
use dsp_embedded.Identity
use dsp_embedded.Identity.{Identity, Blobs, get_cert, get_key}
use dsp_embedded.Neg
use dsp_embedded.Neg.{Negotiations}
use dsp_embedded.Xfer
use dsp_embedded.Xfer.{Transfers}
use dsp_embedded.Http
use dsp_embedded.Http.{Httpd, Http}
use dsp_embedded.Endpoints
pub mod Lifecycle
pub mod Paired
mod Tests

-- The static state of this module, and that of the modules that it starts.
pub record Protocol (h : Httpd) : Type 0 where
  pub sh : Option Shared
  pub running : Bool
  pub task : Bool
  pub identity : Identity
  pub tls : Bool
  pub catalog : Bool
  pub neg : Negotiations
  pub xfer : Transfers
  pub http : Http h

-- What the environment answers, and the switches of the configuration.
pub record Setting : Type 0 where
  pub blobs : Blobs
  pub tls_status : EspErr
  pub with_request : Bool
  pub with_terminate : Bool

-- `sh->core0_ready = ready`, where there is a `sh`.
abbrev pub set_ready : ℕ → Option Shared → Option Shared
set_ready ready none = none
set_ready ready (some sh) = some (record sh { core0_ready = ready })

abbrev pub is_there : Option (List ℕ) → Bool
is_there none = false
is_there (some b) = true

module _ (h : Httpd) where
  -- The registrations, whose errors are logged only.
  unfoldable register : Setting → Protocol h → Http h → Http h
  register s p x =
      let x1 = (Endpoints.catalog_register_handler h p.catalog x).1 in
      let x2 =
        if s.with_request
        then (Endpoints.catalog_register_request_handler h p.catalog true x1).1
        else x1 in
      let x3 = (Endpoints.neg_register_handlers h p.neg.initialized s.with_terminate x2).1 in
      (Endpoints.xfer_register_handlers h p.xfer.initialized x3).1

  -- `protocol_init` behind the credentials. The initialisations of dsp_catalog, dsp_neg and dsp_xfer
  -- have no error to return, and an error of the server is logged only.
  pub bring_up : Setting → Protocol h → EspErr × Protocol h
  bring_up s p =
      let p1 : Protocol h = record p {
        tls = is_ok s.tls_status;
        catalog = (Endpoints.catalog_init p.catalog).1;
        neg = (Neg.init p.neg).1;
        xfer = (Xfer.init p.xfer).1;
      } in
      (
        ok,
        record p1 {
          http = register s p1 (Http.start h p.http).1;
          sh = set_ready 1 p.sh;
          running = true;
        },
      )

  -- `protocol_init` behind `dsp_identity_init`.
  pub with_identity : Setting → Protocol h → EspErr × Identity → EspErr × Protocol h
  with_identity s p (err, id) =
      let p1 : Protocol h = record p { identity = id } in
      if not (is_ok err)
      then (err, p1)
      else if not (is_there (get_cert s.blobs id true).0)
          || not (is_there (get_key s.blobs id true).0)
      then (invalid_state, p1)
      else bring_up s p1

  -- `protocol_init`, whose `sh` is `s_sh`.
  pub protocol_init : Setting → Protocol h → EspErr × Protocol h
  protocol_init s p = with_identity s p (Identity.init s.blobs p.identity)

  -- `protocol_task` up to its idle loop: on an error the task forgets its handle and ends.
  unfoldable protocol_task : Setting → Protocol h → Protocol h
  protocol_task s p =
      let (err, p1) = protocol_init s p in
      if not (is_ok err) then record p1 { task = false } else p1

  -- `dsp_protocol_start`; the Boolean says that the task was created.
  unfoldable start : Option Shared → Bool → Protocol h → EspErr × Protocol h
  start none created p = (invalid_arg, p)
  start (some sh_) created p =
      if not created
      then (no_mem, record p { sh = none })
      else (ok, record p { sh = some sh_; task = true })

  -- `dsp_protocol_stop`, with what it leaves in the shared state.
  pub stop : Protocol h → Option Shared × Protocol h
  stop p = (
    set_ready 0 p.sh,
    record {
      sh = none;
      running = false;
      task = false;
      identity = Identity.deinit p.identity;
      tls = false;
      catalog = Endpoints.catalog_deinit p.catalog;
      neg = Neg.deinit p.neg;
      xfer = Xfer.deinit p.xfer;
      http = Http.stop h p.http;
    },
  )

  abbrev is_running : Protocol h → Bool
  is_running p = p.running
