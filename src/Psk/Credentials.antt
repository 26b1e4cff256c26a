-- ===== src/Psk/Credentials.antt =====
-- What dsp_psk.c keeps and hands out.
use dsp_embedded.Prelude.{
  ℕ, ◌≤◌, ◌≡◌, refl, ap, Option, none, some, List, [], ◌∷◌, ◌++◌, arith, length, length-append,
  length-drop, take, drop, ◌⊎◌, inl, inr, Bool, true, if◌then◌else◌,
}
use dsp_embedded.Esp.{ok, fail, invalid_arg}
use dsp_embedded.Psk.{Psk, set, deinit, apply, get_identity, get_key, blank, overwrite}

-- The buffers have their sizes.
pub record IsSized (p : Psk) : Type 0 where
  pub identity_size : length p.identity ≡ 64
  pub key_size : length p.key ≡ 32

take-overwrite : (buf bytes : List ℕ) → take (length bytes) (overwrite buf bytes) ≡ bytes
take-overwrite buf bytes = go bytes (drop (length bytes) buf)
  where
    go : (xs ys : List ℕ) → take (length xs) (xs ++ ys) ≡ xs
    go [] ys = refl
    go (x ∷ xs) ys = ap (◌∷◌ x) (go xs ys)

length-overwrite :
    (buf bytes : List ℕ) → length bytes ≤ length buf → length (overwrite buf bytes) ≡ length buf
length-overwrite buf bytes h =
    omega (arith, length-append bytes (drop (length bytes) buf), length-drop (length bytes) buf)

-- What a caller reads through a getter.
abbrev pub read_back : Option (List ℕ × ℕ) → Option (List ℕ)
read_back none = none
read_back (some (buf, n)) = some (take n buf)

abbrev pub Acceptable : List ℕ → List ℕ → Type 0
Acceptable identity key =
    (1 ≤ length identity) × (length identity ≤ 64) × (16 ≤ length key) × (length key ≤ 32)

overwritten_lem :
    (p : Psk) (identity key : List ℕ) (conf_psk : List ℕ → List ℕ → Bool)
    → IsSized p
    → Acceptable identity key
    → let (err, p') = set p (some identity) (some key) in
      (err ≡ ok)
      × IsSized p'
      × (read_back (get_identity p') ≡ some identity)
      × (read_back (get_key p') ≡ some key)
      × (apply conf_psk true p' ≡ (if conf_psk key identity then ok else fail))
unfolding set get_identity get_key apply
overwritten_lem p identity key conf_psk s a = ground (
  arith,
  take-overwrite p.identity identity,
  take-overwrite p.key key,
  length-overwrite p.identity identity,
  length-overwrite p.key key,
)

refused_lem :
    (p : Psk) (identity key : List ℕ)
    → ¬ Acceptable identity key
    → set p (some identity) (some key) ≡ (invalid_arg, p)
unfolding set
refused_lem p identity key n = ground (arith, n)

Acceptable-dec : (identity key : List ℕ) → Acceptable identity key ⊎ (¬ Acceptable identity key)
Acceptable-dec identity key = ground arith

-- `dsp_psk_set` takes an identity of 1 to 64 bytes with a key of 16 to 32 bytes, keeps the sizes of its
-- buffers, and from then on the getters give exactly these bytes, and dsp_psk_apply hands exactly them
-- to mbedTLS and reports what it answers. Any other lengths are refused with ESP_ERR_INVALID_ARG, and
-- nothing changes. After `dsp_psk_deinit` both buffers are zero and no key is given.
pub set_lem :
    (p : Psk) (identity key : List ℕ) (conf_psk : List ℕ → List ℕ → Bool)
    → IsSized p
    → let (err, p') = set p (some identity) (some key) in
      ((Acceptable identity key
          × (err ≡ ok)
          × IsSized p'
          × (read_back (get_identity p') ≡ some identity)
          × (read_back (get_key p') ≡ some key)
          × (apply conf_psk true p' ≡ (if conf_psk key identity then ok else fail)))
        ⊎ ((¬ Acceptable identity key) × (err ≡ invalid_arg) × (p' ≡ p)))
      × (deinit p' ≡ blank)
      × (get_key (deinit p') ≡ none)
unfolding deinit get_key
set_lem p identity key conf_psk s = (
  elim (Acceptable-dec identity key) [
    | inl a ↦
        let o = overwritten_lem p identity key conf_psk s a in inl (a, o.0, o.1, o.2, o.3, o.4)
    | inr n ↦ let r = refused_lem p identity key n in inr (n, ap (λ q. q.0) r, ap (λ q. q.1) r)
  ],
  refl,
  refl,
)
