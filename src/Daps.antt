-- ===== src/Daps.antt =====
-- components/dsp_daps/dsp_daps.c: the guards of the token request, which the code does not send yet.
-- Whether the shim is compiled in, and its URL, are arguments.
use dsp_embedded.Prelude.{
  ℕ, Bool, true, false, not, ◌||◌, Option, none, some, [], ◌∷◌, if◌then◌else◌, ◌==◌, Text,
}
use dsp_embedded.Esp.{EspErr, ok}

-- `dsp_daps_err_t`.
pub data DapsErr : Type 0 where
  daps_ok disabled no_url http_failed invalid_arg not_init : DapsErr

-- The life cycle, on the one flag of the module.
unfoldable init : Bool → EspErr × Bool
init initialized = (ok, true)

unfoldable deinit : Bool → Bool
deinit initialized = false

abbrev is_initialized : Bool → Bool
is_initialized initialized = initialized

-- The gateway path, by its URL.
abbrev gateway : Option Text → DapsErr
gateway none = no_url
gateway (some []) = no_url
gateway (some (c ∷ s)) = http_failed

-- `dsp_daps_request_token`; the Booleans say that the pointers are not NULL.
unfoldable request_token : Bool → Option Text → Bool → Bool → ℕ → Bool → DapsErr
request_token enabled url initialized out_buf buf_cap out_len =
    if not out_buf || (buf_cap == 0) || not out_len
    then invalid_arg
    else if not initialized
    then not_init
    else if not enabled
    then disabled
    else gateway url
