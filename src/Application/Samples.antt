-- ===== src/Application/Samples.antt =====
-- What the acquisition (components/dsp_application/dsp_application.c) leaves in the ring buffer.
use dsp_embedded.Prelude.{
  ℕ, sym, subst, inl, inr, not, Option, none, some, List, [], ◌∷◌, ◌++◌, if◌then◌else◌, take,
  append_assoc, append-nil, Bool-cases,
}
use dsp_embedded.Esp.{EspErr, is_ok}
use dsp_embedded.Shared.{Shared, Sample, push}
use dsp_embedded.Shared.Ring.{IsValid, contents}
use dsp_embedded.Shared.Clients.{Holds}
use dsp_embedded.Shared.Pushes.{push-Holds, contents-take}
use dsp_embedded.Application.{Scale, acquire, temp_sample, hum_sample}

-- What a read of the sensor returned and wrote, and the time of its samples.
pub record Reading : Type 0 where
  pub status : EspErr
  pub out : Option (ℕ × ℕ)
  pub now : ℕ

-- The samples of a reading: none if it failed.
abbrev pub samples_of : Scale → ℕ → EspErr → Option (ℕ × ℕ) → List Sample
samples_of scale now err none = []
samples_of scale now err (some v) =
    if not (is_ok err) then [] else temp_sample scale now v ∷ hum_sample scale now v ∷ []

abbrev pub all_samples : Scale → List Reading → List Sample
all_samples scale [] = []
all_samples scale (r ∷ rs) = samples_of scale r.now r.status r.out ++ all_samples scale rs

-- The readings of the task, one after the other.
pub acquire_all : Scale → Option Shared → List Reading → Option Shared
acquire_all scale sh [] = sh
acquire_all scale sh (r ∷ rs) = acquire_all scale (acquire scale sh r.now r.status r.out) rs

pub acquire-Holds :
    (scale : Scale) (sh : Option Shared) (l : List Sample) (now : ℕ) (err : EspErr)
    (out : Option (ℕ × ℕ))
    → Holds sh (take 32 l)
    → Holds (acquire scale sh now err out) (take 32 (l ++ samples_of scale now err out))
unfolding acquire
acquire-Holds scale sh l now err none h = subst (λ q. Holds sh (take 32 q)) (sym (append-nil l)) h
acquire-Holds scale sh l now err (some v) h =
    let t = temp_sample scale now v in
    let m = hum_sample scale now v in
    elim (Bool-cases (is_ok err)) [
      | inl e ↦ rw e (
          subst (λ q. Holds (push (push sh (some t)).1 (some m)).1 (take 32 q))
            (append_assoc l (t ∷ []) (m ∷ []))
            (push-Holds (push sh (some t)).1 (l ++ (t ∷ [])) m (push-Holds sh l t h)))
      | inr e ↦ rw e (subst (λ q. Holds sh (take 32 q)) (sym (append-nil l)) h)
    ]

acquire_all-Holds :
    (scale : Scale) (rs : List Reading) (sh : Option Shared) (l : List Sample)
    → Holds sh (take 32 l)
    → Holds (acquire_all scale sh rs) (take 32 (l ++ all_samples scale rs))
unfolding acquire_all
acquire_all-Holds scale [] sh l h = subst (λ q. Holds sh (take 32 q)) (sym (append-nil l)) h
acquire_all-Holds scale (r ∷ rs) sh l h =
    let got = samples_of scale r.now r.status r.out in
    let sh' = acquire scale sh r.now r.status r.out in
    subst (λ q. Holds (acquire_all scale sh' rs) (take 32 q))
      (append_assoc l got (all_samples scale rs))
      (acquire_all-Holds scale rs sh' (l ++ got) (acquire-Holds scale sh l r.now r.status r.out h))

-- While the ring buffer is not drained, the acquisition keeps it valid, and it holds the first 32 of
-- the samples that it held and those of the readings that succeeded, temperature before humidity, in
-- the order of the readings: a failed reading leaves no sample, and what finds no room is dropped.
pub acquire_all_lem :
    (scale : Scale) (rs : List Reading) (sh : Shared)
    → IsValid sh.ring
    → Holds (acquire_all scale (some sh) rs) (take 32 (contents sh.ring ++ all_samples scale rs))
acquire_all_lem scale rs sh v =
    acquire_all-Holds scale rs (some sh) (contents sh.ring) (v, contents-take sh v)
