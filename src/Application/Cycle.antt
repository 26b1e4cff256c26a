-- ===== src/Application/Cycle.antt =====
-- The loop of application_task (components/dsp_application/dsp_application.c).
use dsp_embedded.Prelude.{
  ℕ, ◌≡◌, refl, ap, ◌∙◌, inl, inr, Bool, true, false, Option, none, some, List, [], ◌∷◌, ◌++◌, take,
  if◌then◌else◌, Bool-cases, ◌>>=◌,
}
use dsp_embedded.Esp.{EspErr}
use dsp_embedded.Shared.{Shared, Sample}
use dsp_embedded.Shared.Ring.{IsValid, contents}
use dsp_embedded.Shared.Clients.{Holds}
use dsp_embedded.Shared.Pushes.{contents-take}
use dsp_embedded.Dht20.{I2c}
use dsp_embedded.Dht20.Poll.{read-ends}
use dsp_embedded.Application.{Application, Scale, acquire, sampled, cycle}
use dsp_embedded.Application.Samples.{samples_of, acquire-Holds}

-- The ring buffer of the shared state, where one is attached, is valid.
abbrev pub IsAttached : Option Shared → Type 0
IsAttached none = ⊥
IsAttached (some sh) = IsValid sh.ring

IsAttached-Holds : (sh : Option Shared) (q : List Sample) → Holds sh q → IsAttached sh
IsAttached-Holds none q h = absurd h
IsAttached-Holds (some sh) q h = h.0

if_true : {A : Type 0} (b : Bool) (x y : A) → b ≡ true → (if b then x else y) ≡ x
if_true b x y e = rw e refl

if_false : {A : Type 0} (b : Bool) (x y : A) → b ≡ false → (if b then x else y) ≡ y
if_false b x y e = rw e refl

acquire-IsAttached :
    (scale : Scale) (sh : Option Shared) (now : ℕ) (err : EspErr) (out : Option (ℕ × ℕ))
    → IsAttached sh
    → IsAttached (acquire scale sh now err out)
acquire-IsAttached scale none now err out a = absurd a
acquire-IsAttached scale (some sh) now err out a =
    IsAttached-Holds (acquire scale (some sh) now err out)
      (take 32 (contents sh.ring ++ samples_of scale now err out))
      (acquire-Holds scale (some sh) (contents sh.ring) now err out (a, contents-take sh a))

module _ (bus : I2c) (scale : Scale) where
  -- The cycles of the task at the given times, on the fuel of the sensor's busy loop.
  pub cycles : ℕ → List ℕ → Application → bus.Dev → Option (Application × bus.Dev)
  cycles fuel [] app d = some (app, d)
  cycles fuel (now ∷ times) app d =
      cycle bus scale fuel now app d >>= (λ r. cycles fuel times r.0 r.1)

  cycle-ends :
      (now : ℕ) (app : Application) (d : bus.Dev)
      → IsAttached app.sh
      → (r : Application × bus.Dev) × (cycle bus scale 184 now app d ≡ some r) × IsAttached r.0.sh
  unfolding cycle
  cycle-ends now app d a = elim (Bool-cases app.sensor.context) [
    | inl e ↦
        let (r, read) = read-ends bus d in
        let (err, out, d1) = r in
        (
          (record app { sh = acquire scale app.sh now err out }, d1),
          if_true app.sensor.context _ _ e ∙ ap (sampled bus scale now app) read,
          acquire-IsAttached scale app.sh now err out a,
        )
    | inr e ↦ ((app, d), if_false app.sensor.context _ _ e, a)
  ]

  -- The acquisition never hangs: whatever the sensor and the bus answer, every cycle ends within 184
  -- polls of the busy loop, and after any number of cycles the ring buffer is valid.
  pub cycles-ends :
      (times : List ℕ) (app : Application) (d : bus.Dev)
      → IsAttached app.sh
      → (r : Application × bus.Dev) × (cycles 184 times app d ≡ some r) × IsAttached r.0.sh
  unfolding cycles
  cycles-ends [] app d a = ((app, d), refl, a)
  cycles-ends (now ∷ times) app d a =
      let (r, once, a1) = cycle-ends now app d a in
      let (last, rest, a2) = cycles-ends times r.0 r.1 a1 in (last, rw once rest, a2)
