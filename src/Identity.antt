-- ===== src/Identity.antt =====
-- components/dsp_identity/dsp_identity.c, as built for the device: the certificate and the key that
-- the linker embeds. mbedTLS is a parameter: whether it parses the certificate; the certificate
-- chains that it holds for the module are counted.
use dsp_embedded.Prelude.{
  ℕ, ◌+◌, ◌-◌, Bool, true, false, not, ◌||◌, Option, none, some, List, if◌then◌else◌, ◌==◌, length,
}
use dsp_embedded.Esp.{EspErr, ok, invalid_arg, invalid_state}

-- The embedded files, and what mbedTLS makes of the certificate.
pub record Blobs : Type 0 where
  pub cert : List ℕ
  pub key : List ℕ
  pub parses : Bool

-- `s_provisioned`, whether `s_crt` holds a chain, and the chains that were parsed and not freed: a
-- second initialisation forgets the chain in `s_crt` without freeing it.
pub record Identity : Type 0 where
  pub provisioned : Bool
  pub loaded : Bool
  pub chains : ℕ

unfoldable pub init : Blobs → Identity → EspErr × Identity
init b id =
    if (length b.cert == 0) || (length b.key == 0)
    then (invalid_state, id)
    else if not b.parses
    then (invalid_arg, record id { loaded = false })
    else (ok, record { provisioned = true; loaded = true; chains = id.chains + 1 })

unfoldable pub deinit : Identity → Identity
deinit id =
    let left = if id.loaded then id.chains - 1 else id.chains in
    if id.provisioned then record { provisioned = false; loaded = false; chains = left } else id

-- What both getters do with a file; the Boolean says that `out_len` is not NULL. The result is the
-- file, if a pointer is returned, and what is written to `*out_len`.
abbrev pub get_blob : Identity → List ℕ → Bool → Option (List ℕ) × Option ℕ
get_blob id blob false = (none, none)
get_blob id blob true =
    if not id.provisioned then (none, some 0) else (some blob, some (length blob))

abbrev pub get_cert : Blobs → Identity → Bool → Option (List ℕ) × Option ℕ
get_cert b id out_len = get_blob id b.cert out_len

abbrev pub get_key : Blobs → Identity → Bool → Option (List ℕ) × Option ℕ
get_key b id out_len = get_blob id b.key out_len

abbrev is_provisioned : Identity → Bool
is_provisioned id = id.provisioned
