-- ===== src/Tls.antt =====
-- components/dsp_mbedtls/dsp_tls.c, as built for the device: the TLS server context. mbedTLS is a
-- parameter: whether each of its calls succeeds. Of its objects the context keeps whether they were
-- initialised and not freed by this module.
use dsp_embedded.Prelude.{
  ℕ, ◌+◌, Bool, true, false, not, Option, none, some, Text, if◌then◌else◌, ◌==◌, length,
}
use dsp_embedded.Esp.{EspErr, ok, fail, invalid_arg}
pub mod Setup
mod Tests

-- The calls of mbedTLS whose result is tested; `true` is the result 0.
pub record Mbedtls : Type 0 where
  pub seed : Text → Bool
  pub parse_cert : Text → ℕ → Bool
  pub parse_cert_der : Text → ℕ → Bool
  pub parse_key : Text → ℕ → Bool
  pub config_defaults : Bool
  pub own_cert : Bool
  pub alpn_protocols : Bool
  pub ticket_setup : Bool

-- `dsp_tls_ctx_t`.
pub record Tls : Type 0 where
  pub entropy : Bool
  pub ctr_drbg : Bool
  pub srv_cert : Bool
  pub srv_key : Bool
  pub conf : Bool
  pub ticket_ctx : Bool
  pub initialized : Bool

-- `memset(ctx, 0, sizeof(*ctx))`.
abbrev pub zero_ctx : Tls
zero_ctx = record {
  entropy = false;
  ctr_drbg = false;
  srv_cert = false;
  srv_key = false;
  conf = false;
  ticket_ctx = false;
  initialized = false;
}

-- `dsp_tls_server_deinit`; `tickets` is CONFIG_DSP_TLS_SESSION_TICKETS.
pub deinit : Bool → Tls → Tls
deinit tickets t =
    let ticket_ctx' =
      if tickets then (if t.initialized then false else t.ticket_ctx) else t.ticket_ctx in
    record zero_ctx { ticket_ctx = ticket_ctx' }

module _ (m : Mbedtls) (tickets : Bool) where
  -- `fail:`.
  abbrev pub failed : Tls → EspErr × Tls
  failed t = (fail, deinit tickets t)

  -- From the session tickets on.
  abbrev pub with_tickets : Tls → EspErr × Tls
  with_tickets t =
      let up = record t { initialized = true } in
      let ticketed = record t { ticket_ctx = true } in
      if not tickets
      then (ok, up)
      else if not m.ticket_setup
      then failed ticketed
      else (ok, record ticketed { initialized = true })

  -- From the configuration on.
  abbrev pub with_config : Tls → EspErr × Tls
  with_config t =
      let t1 = record t { conf = true } in
      if not m.config_defaults
      then failed t1
      else if not m.own_cert
      then failed t1
      else if not m.alpn_protocols
      then failed t1
      else with_tickets t1

  -- `mbedtls_pk_parse_key`, with the NUL of a PEM text if `key_len` is 0.
  abbrev pub parses_key : Text → ℕ → Bool
  parses_key key key_len =
      if key_len == 0 then m.parse_key key (length key + 1) else m.parse_key key key_len

  -- From the private key on.
  abbrev pub with_key : Text → ℕ → Tls → EspErr × Tls
  with_key key key_len t =
      let t1 = record t { srv_key = true } in
      if not (parses_key key key_len) then failed t1 else with_config t1

  -- `mbedtls_x509_crt_parse` or `mbedtls_x509_crt_parse_der`.
  abbrev pub parses_cert : Text → ℕ → Bool
  parses_cert cert cert_len =
      if cert_len == 0 then m.parse_cert cert (length cert + 1) else m.parse_cert_der cert cert_len

  -- From the certificate on.
  abbrev pub with_cert : Text → ℕ → Text → ℕ → Tls → EspErr × Tls
  with_cert cert cert_len key key_len t =
      let t1 = record t { srv_cert = true } in
      if not (parses_cert cert cert_len) then failed t1 else with_key key key_len t1

  -- `dsp_tls_server_init` on pointers that are not NULL.
  pub set_up : Text → ℕ → Text → ℕ → Text → EspErr × Tls
  set_up cert cert_len key key_len pers =
      let t1 = record zero_ctx { entropy = true; ctr_drbg = true } in
      if not (m.seed pers) then failed t1 else with_cert cert cert_len key key_len t1

  -- `dsp_tls_server_init`; NULL pointers are `none`.
  pub server_init :
      Option Tls → Option Text → ℕ → Option Text → ℕ → Option Text → EspErr × Option Tls
  server_init none cert cert_len key key_len pers = (invalid_arg, none)
  server_init (some t) none cert_len key key_len pers = (invalid_arg, some t)
  server_init (some t) (some cert) cert_len none key_len pers = (invalid_arg, some t)
  server_init (some t) (some cert) cert_len (some key) key_len none = (invalid_arg, some t)
  server_init (some t) (some cert) cert_len (some key) key_len (some pers) =
      let (err, t') = set_up cert cert_len key key_len pers in (err, some t')

-- `dsp_tls_server_deinit`, on a pointer that may be NULL.
pub server_deinit : Bool → Option Tls → Option Tls
server_deinit tickets none = none
server_deinit tickets (some t) = some (deinit tickets t)

-- Whether `dsp_tls_server_get_config` returns a configuration.
pub has_config : Option Tls → Bool
has_config none = false
has_config (some t) = t.initialized
