-- ===== src/Protocol/Paired.antt =====
-- The start of the protocol stack keeps the running flag of dsp_http.c with its server.
use dsp_embedded.Prelude.{Bool, true, false, not, ◌||◌, if◌then◌else◌}
use dsp_embedded.Esp.{EspErr, is_ok, invalid_state}
use dsp_embedded.Identity
use dsp_embedded.Identity.{Identity, Blobs, get_cert, get_key}
use dsp_embedded.Neg
use dsp_embedded.Xfer
use dsp_embedded.Endpoints
use dsp_embedded.Endpoints.Paired.{
  neg_register_handlers-IsPaired, xfer_register_handlers-IsPaired,
  catalog_register_handler-IsPaired, catalog_register_request_handler-IsPaired,
}
use dsp_embedded.Http
use dsp_embedded.Http.{Httpd, Http}
use dsp_embedded.Http.Paired.{IsPaired, start-IsPaired}
use dsp_embedded.Protocol.{
  Protocol, Setting, is_there, register, bring_up, with_identity, protocol_init,
}

module _ (h : Httpd) where
  either_server :
      (b : Bool) (x y : Http h) → IsPaired h x → IsPaired h y → IsPaired h (if b then x else y)
  either_server true x y i j = i
  either_server false x y i j = j

  either_protocol :
      (b : Bool) (x y : EspErr × Protocol h)
      → IsPaired h x.1.http
      → IsPaired h y.1.http
      → IsPaired h (if b then x else y).1.http
  either_protocol true x y i j = i
  either_protocol false x y i j = j

  register-IsPaired :
      (s : Setting) (p : Protocol h) (x : Http h) → IsPaired h x → IsPaired h (register h s p x)
  unfolding register
  register-IsPaired s p x i =
      let x1 = (Endpoints.catalog_register_handler h p.catalog x).1 in
      let i1 = catalog_register_handler-IsPaired h p.catalog x i in
      let asked = (Endpoints.catalog_register_request_handler h p.catalog true x1).1 in
      let x2 = if s.with_request then asked else x1 in
      let i2 : IsPaired h x2 =
        either_server s.with_request asked x1
          (catalog_register_request_handler-IsPaired h p.catalog true x1 i1) i1 in
      let x3 = (Endpoints.neg_register_handlers h p.neg.initialized s.with_terminate x2).1 in
      xfer_register_handlers-IsPaired h p.xfer.initialized x3
        (neg_register_handlers-IsPaired h p.neg.initialized s.with_terminate x2 i2)

  pub protocol_init-IsPaired :
      (s : Setting) (p : Protocol h) → IsPaired h p.http → IsPaired h (protocol_init h s p).1.http
  unfolding protocol_init with_identity bring_up
  protocol_init-IsPaired s p i =
      let (err, id) = Identity.init s.blobs p.identity in
      let p1 : Protocol h = record p { identity = id } in
      either_protocol (not (is_ok err)) (err, p1) (with_blobs s p1) i
        (either_protocol
          (not (is_there (get_cert s.blobs id true).0)
            || not (is_there (get_key s.blobs id true).0))
          (invalid_state, p1) (bring_up h s p1) i
          (register-IsPaired s (started s p1) (Http.start h p.http).1 (start-IsPaired h p.http i)))
    where
      with_blobs : Setting → Protocol h → EspErr × Protocol h
      with_blobs s p1 =
          if not (is_there (get_cert s.blobs p1.identity true).0)
            || not (is_there (get_key s.blobs p1.identity true).0)
          then (invalid_state, p1)
          else bring_up h s p1

      started : Setting → Protocol h → Protocol h
      started s p1 = record p1 {
        tls = is_ok s.tls_status;
        catalog = (Endpoints.catalog_init p1.catalog).1;
        neg = (Neg.init p1.neg).1;
        xfer = (Xfer.init p1.xfer).1;
      }
