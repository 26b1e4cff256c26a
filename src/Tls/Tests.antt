-- ===== src/Tls/Tests.antt =====
-- The TLS context of components/dsp_mbedtls/dsp_tls.c on a library whose tickets cannot be set up.
use dsp_embedded.Prelude.{true, false, not, ◌&&◌, ◌||◌, ◌≡◌, ◌⊎◌, some, Text, [], ◌∷◌, ◌==◌, length}
use dsp_embedded.Esp.{ok, fail}
use dsp_embedded.Tls.{Mbedtls, zero_ctx, server_init, server_deinit, has_config}
use dsp_embedded.Tls.Setup.{granted, server_init_lem}

abbrev ticketless : Mbedtls
ticketless = record {
  seed = λ s. true;
  parse_cert = λ s n. true;
  parse_cert_der = λ s n. n == length s;
  parse_key = λ s n. n == length s;
  config_defaults = true;
  own_cert = true;
  alpn_protocols = true;
  ticket_setup = false;
}

abbrev der : Text
der = 48 ∷ 130 ∷ []

server_init_lem_example :
    let g = granted ticketless true der 2 der 2 der in
    let (err, t) =
      server_init ticketless true (some zero_ctx) (some der) 2 (some der) 2 (some der) in
    ((g && (not true || ticketless.ticket_setup) ≡ true)
      × (err ≡ ok)
      × (has_config t ≡ true)
      × (server_deinit true t ≡ some zero_ctx))
    ⊎ ((g && (not true || ticketless.ticket_setup) ≡ false)
        × (err ≡ fail)
        × (has_config t ≡ false)
        × (t ≡ some (record zero_ctx { ticket_ctx = g && true })))
server_init_lem_example = server_init_lem ticketless true zero_ctx der 2 der 2 der
