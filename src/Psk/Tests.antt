-- ===== src/Psk/Tests.antt =====
-- dsp_psk at concrete inputs.
use dsp_embedded.Prelude.{
  ℕ, ◌≡◌, refl, none, some, List, [], ◌∷◌, replicate, Bool, true, ◌⊎◌, if◌then◌else◌,
}
use dsp_embedded.Esp.{ok, fail, invalid_arg}
use dsp_embedded.Psk.{set, deinit, apply, get_identity, get_key, blank}
use dsp_embedded.Psk.Credentials.{Acceptable, IsSized, read_back, set_lem}

abbrev name : List ℕ
name = 100 ∷ 115 ∷ 112 ∷ []

abbrev secret : List ℕ
secret = replicate 16 42

-- A library that takes every key.
abbrev takes_all : List ℕ → List ℕ → Bool
takes_all key identity = true

set_lem_example :
    let (err, p') = set blank (some name) (some secret) in
    ((Acceptable name secret
        × (err ≡ ok)
        × IsSized p'
        × (read_back (get_identity p') ≡ some name)
        × (read_back (get_key p') ≡ some secret)
        × (apply takes_all true p' ≡ (if takes_all secret name then ok else fail)))
      ⊎ ((¬ Acceptable name secret) × (err ≡ invalid_arg) × (p' ≡ blank)))
    × (deinit p' ≡ blank)
    × (get_key (deinit p') ≡ none)
set_lem_example =
    set_lem blank name secret takes_all (record { identity_size = refl; key_size = refl })
