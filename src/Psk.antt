-- ===== src/Psk.antt =====
-- components/dsp_psk/dsp_psk.c and include/dsp_psk.h: the pre-shared key. A static buffer is the list
-- of its bytes; the caller's buffers are lists, whose lengths are the length arguments. mbedTLS is a
-- parameter.
use dsp_embedded.Prelude.{
  ℕ, Bool, true, false, not, ◌||◌, Option, none, some, List, [], ◌∷◌, ◌++◌, if◌then◌else◌, ltb,
  ◌==◌, length, take, drop, replicate,
}
use dsp_embedded.Esp.{EspErr, ok, fail, invalid_arg}
pub mod Credentials
mod Tests

-- `DSP_PSK_MAX_IDENTITY_LEN`, `DSP_PSK_MIN_KEY_LEN` and `DSP_PSK_MAX_KEY_LEN`.
abbrev pub max_identity_len : ℕ
max_identity_len = 64

abbrev pub min_key_len : ℕ
min_key_len = 16

abbrev pub max_key_len : ℕ
max_key_len = 32

-- The static state.
pub record Psk : Type 0 where
  pub identity : List ℕ
  pub identity_len : ℕ
  pub key : List ℕ
  pub key_len : ℕ
  pub configured : Bool

-- Both buffers zero, and no credentials: the state at boot.
abbrev pub blank : Psk
blank = record {
  identity = replicate max_identity_len 0;
  identity_len = 0;
  key = replicate max_key_len 0;
  key_len = 0;
  configured = false;
}

unfoldable init : Psk → EspErr × Psk
init p = (ok, blank)

pub deinit : Psk → Psk
deinit p = blank

-- `memcpy` to the start of a buffer.
abbrev pub overwrite : List ℕ → List ℕ → List ℕ
overwrite buf bytes = bytes ++ drop (length bytes) buf

-- `dsp_psk_set`; NULL pointers are `none`.
pub set : Psk → Option (List ℕ) → Option (List ℕ) → EspErr × Psk
set p none key = (invalid_arg, p)
set p (some identity) none = (invalid_arg, p)
set p (some identity) (some key) =
    if (length identity == 0) || ltb max_identity_len (length identity)
    then (invalid_arg, p)
    else if ltb (length key) min_key_len || ltb max_key_len (length key)
    then (invalid_arg, p)
    else (
      ok,
      record {
        identity = overwrite p.identity identity;
        identity_len = length identity;
        key = overwrite p.key key;
        key_len = length key;
        configured = true;
      },
    )

-- The buffer and the length that `dsp_psk_get_identity` returns, for a length pointer that is not
-- NULL.
pub get_identity : Psk → Option (List ℕ × ℕ)
get_identity p = if p.configured then some (p.identity, p.identity_len) else none

pub get_key : Psk → Option (List ℕ × ℕ)
get_key p = if p.configured then some (p.key, p.key_len) else none

-- `mbedtls_ssl_conf_psk`, on the key and the identity: whether it returns 0.
pub apply : (List ℕ → List ℕ → Bool) → Bool → Psk → EspErr
apply conf_psk conf p =
    if not conf
    then invalid_arg
    else if not p.configured
    then fail
    else if conf_psk (take p.key_len p.key) (take p.identity_len p.identity)
    then ok
    else fail
