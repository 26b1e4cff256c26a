-- ===== src/Esp.antt =====
-- `esp_err_t` of ESP-IDF, as the program uses it: the codes that the components name (their values
-- stand in test/stubs/esp_err.h), and any other code that a driver returns.
use dsp_embedded.Prelude.{ℕ, Bool, true, false}

pub data EspErr : Type 0 where
  ok fail no_mem invalid_arg invalid_state not_found not_supported timeout invalid_crc : EspErr
  other : ℕ → EspErr

-- `err == ESP_OK`.
abbrev pub is_ok : EspErr → Bool
is_ok ok = true
is_ok _ = false
