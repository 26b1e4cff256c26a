-- ===== src/Dht20/Poll.antt =====
-- How long the busy loop of dsp_dht20.c runs.
use dsp_embedded.Prelude.{
  ℕ, zero, suc, ◌+◌, ◌*◌, ◌≤◌, ◌≡◌, refl, ap, ◌∙◌, Bool, true, false, not, Option, none, some, [],
  ◌∷◌, arith, if◌then◌else◌, leb, ◌==◌, get_or, bit_and, Bool-cases, inl, inr,
}
use dsp_embedded.Esp.{EspErr, is_ok, ok, fail, timeout}
use dsp_embedded.Dht20.{I2c, poll, read, after_poll, read_data}

-- The branches of one round, of which only the last needs more fuel.
settles :
    (bus : I2c) (failed free late : Bool) (rest : Option (EspErr × bus.Dev)) (d1 : bus.Dev)
    → (late ≡ false → (r : EspErr × bus.Dev) × (rest ≡ some r))
    → (r : EspErr × bus.Dev) × ((if failed
          then some (fail, d1)
          else if free
          then some (ok, d1)
          else if late
          then some (timeout, d1)
          else rest)
        ≡ some r)
settles bus true free late rest d1 h = ((fail, d1), refl)
settles bus false true late rest d1 h = ((ok, d1), refl)
settles bus false false true rest d1 h = ((timeout, d1), refl)
settles bus false false false rest d1 h = h refl

after_poll-ends :
    (bus : I2c) (o : Option (EspErr × bus.Dev)) {p : EspErr × bus.Dev}
    → o ≡ some p
    → (r : EspErr × Option (ℕ × ℕ) × bus.Dev) × (after_poll bus o ≡ some r)
unfolding after_poll
after_poll-ends bus o {p = p} e = elim (Bool-cases (is_ok p.0)) [
  | inl good ↦ (read_data bus p.1, ap (after_poll bus) e ∙ ground (arith, good))
  | inr bad ↦ ((p.0, none, p.1), ap (after_poll bus) e ∙ ground (arith, bad))
]

reads :
    (bus : I2c) (good : Bool) (o : Option (EspErr × bus.Dev)) (d1 : bus.Dev)
    → ((p : EspErr × bus.Dev) × (o ≡ some p))
    → (r : EspErr × Option (ℕ × ℕ) × bus.Dev) × ((if not good
          then some (fail, none, d1)
          else after_poll bus o)
        ≡ some r)
reads bus true o d1 e = after_poll-ends bus o e.1
reads bus false o d1 e = ((fail, none, d1), refl)

-- Fuel for the time that is left, and one more round, is enough.
poll-ends :
    (bus : I2c) (n waited : ℕ) (d : bus.Dev)
    → 1000 ≤ waited + 5 * n
    → (r : EspErr × bus.Dev) × (poll bus (suc n) waited d ≡ some r)
unfolding poll
poll-ends bus zero waited d h =
    let (err, rx, d1) = bus.receive 1 d in
    settles bus (not (is_ok err)) (bit_and (get_or rx 0 0) 0x80 == 0) (leb 1000 waited) none d1
      (λ late. absurd (ground arith))
poll-ends bus (suc n) waited d h =
    let (err, rx, d1) = bus.receive 1 d in
    settles bus (not (is_ok err)) (bit_and (get_or rx 0 0) 0x80 == 0) (leb 1000 waited)
      (poll bus (suc n) (waited + 5) (bus.delay 5 d1)) d1
      (λ late. poll-ends bus n (waited + 5) (bus.delay 5 d1) (omega arith))

-- The busy loop always ends, whatever the sensor and the bus answer: `dsp_dht20_read` polls at most
-- 184 times, and then returns a status.
pub read-ends :
    (bus : I2c) (d : bus.Dev) → (r : EspErr × Option (ℕ × ℕ) × bus.Dev) × (read bus 184 d ≡ some r)
unfolding read after_poll
read-ends bus d =
    let (err, d1) = bus.transmit (0xAC ∷ 0x33 ∷ 0x00 ∷ []) d in
    let ended = poll-ends bus 183 85 (bus.delay 85 d1) (omega arith) in
    reads bus (is_ok err) (poll bus 184 85 (bus.delay 85 d1)) d1 ended
