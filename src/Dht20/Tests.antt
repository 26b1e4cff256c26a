-- ===== src/Dht20/Tests.antt =====
-- dsp_dht20 at concrete inputs.
use dsp_embedded.Prelude.{
  ℕ, ◌-◌, ◌≡◌, ◌≢◌, refl, true, false, some, List, [], ◌∷◌, ◌++◌, arith, ◌⊎◌, if◌then◌else◌, ◌==◌,
}
use dsp_embedded.Esp.{ok, fail, no_mem, invalid_arg}
use dsp_embedded.Dht20.{
  I2c, crc8_round, crc8_rounds, crc8_from, dht20_crc8, read_data, raw_humidity, raw_temperature,
  Answers, init, deinit, nothing_held,
}
use dsp_embedded.Dht20.Crc8.{dht20_crc8_detects}
use dsp_embedded.Dht20.Reading.{frame, raw-frame}
use dsp_embedded.Dht20.Setup.{all_held, init-Held}

abbrev good : List ℕ
good = frame 0x18 524288 393216 ++ (35 ∷ [])

-- A sensor that is busy for as many polls as its state says, then sends one measurement.
abbrev sensor : I2c
sensor = record {
  Dev = ℕ;
  transmit = λ bytes d. (ok, d);
  receive =
      λ n d. if n == 1 then (ok, (if d == 0 then 0x18 else 0x98) ∷ [], d - 1) else (ok, good, d);
  delay = λ ms d. d;
}

dht20_crc8_detects_example : dht20_crc8 (1 ∷ 2 ∷ 3 ∷ []) ≢ dht20_crc8 (1 ∷ 7 ∷ 3 ∷ [])
dht20_crc8_detects_example =
    dht20_crc8_detects (1 ∷ []) (3 ∷ []) 2 7 (omega arith, (omega arith, (omega arith, tt)))
      (omega arith) (omega arith)

raw-frame_example :
    (raw_humidity (frame 0x18 524288 393216 ++ (9 ∷ [])) ≡ 524288)
    × (raw_temperature (frame 0x18 524288 393216 ++ (9 ∷ [])) ≡ 393216)
raw-frame_example = raw-frame 0x18 524288 393216 9 (omega arith) (omega arith)

good-read : (read_data sensor 0).1 ≡ some (524288, 393216)
unfolding read_data dht20_crc8 crc8_from crc8_rounds crc8_round
good-read = refl

abbrev answers : Answers
answers = record { calloc_ok = true; new_bus = ok; add_device = fail }

init-Held_example :
    let (err, held, d1) = init sensor true answers 0 in
    (((true ≡ true) × (err ≡ ok) × (held ≡ all_held))
      ⊎ ((true ≡ true) × (err ≡ fail) × (answers.calloc_ok ≡ true) × (held ≡ nothing_held))
      ⊎ ((true ≡ true) × (err ≡ no_mem) × (answers.calloc_ok ≡ false) × (held ≡ nothing_held))
      ⊎ ((true ≡ false) × (err ≡ invalid_arg) × (held ≡ nothing_held)))
    × (deinit held ≡ nothing_held)
init-Held_example = init-Held sensor true answers 0
