-- ===== src/Tls/Setup.antt =====
-- The set-up of the TLS server context and its failures (components/dsp_mbedtls/dsp_tls.c).
use dsp_embedded.Prelude.{ℕ, Bool, true, false, not, ◌&&◌, ◌||◌, ◌≡◌, ◌⊎◌, some, Text, arith}
use dsp_embedded.Esp.{ok, fail}
use dsp_embedded.Tls.{
  Mbedtls, Tls, zero_ctx, deinit, set_up, server_init, server_deinit, has_config, parses_key,
  parses_cert,
}

module _ (m : Mbedtls) (tickets : Bool) where
  -- The calls before the session tickets succeed.
  abbrev pub granted : Text → ℕ → Text → ℕ → Text → Bool
  granted cert cert_len key key_len pers =
      m.seed pers
      && parses_cert m tickets cert cert_len
      && parses_key m tickets key key_len
      && m.config_defaults
      && m.own_cert
      && m.alpn_protocols

  -- `dsp_tls_server_init`, whose pointers are there, returns `ESP_OK` exactly if every call of mbedTLS
  -- succeeds; then there is a configuration to get, and `dsp_tls_server_deinit` frees every object.
  -- Otherwise it returns ESP_FAIL, there is no configuration, and every object is freed but for the
  -- ticket context, which is left if only its set-up failed.
  pub server_init_lem :
      (ctx : Tls) (cert : Text) (cert_len : ℕ) (key : Text) (key_len : ℕ) (pers : Text)
      → let g = granted cert cert_len key key_len pers in
        let (err, t) =
          server_init m tickets (some ctx) (some cert) cert_len (some key) key_len (some pers) in
        ((g && (not tickets || m.ticket_setup) ≡ true)
          × (err ≡ ok)
          × (has_config t ≡ true)
          × (server_deinit tickets t ≡ some zero_ctx))
        ⊎ ((g && (not tickets || m.ticket_setup) ≡ false)
            × (err ≡ fail)
            × (has_config t ≡ false)
            × (t ≡ some (record zero_ctx { ticket_ctx = g && tickets })))
  unfolding server_init set_up deinit server_deinit has_config
  server_init_lem ctx cert cert_len key key_len pers = ground (arith)
