-- ===== src/Dht20/Reading.antt =====
-- What a reading of dsp_dht20.c stands for.
use dsp_embedded.Prelude.{
  ℕ, zero, suc, ◌+◌, ◌*◌, ◌/◌, ◌%◌, ◌^◌, ◌<◌, ◌≡◌, some, List, [], ◌∷◌, ◌++◌, arith, get_or, take,
  AllBytes,
}
use dsp_embedded.Esp.{ok}
use dsp_embedded.Dht20.{I2c, dht20_crc8, raw_humidity, raw_temperature, read_data}

-- The layout of the datasheet: the status, then humidity and temperature in 20 bits each, the highest
-- bits first, sharing the fourth byte.
abbrev pub frame : ℕ → ℕ → ℕ → List ℕ
frame status h t =
    status ∷ h / 4096 ∷ h / 16 % 256 ∷ (h % 16 * 16 + t / 65536) ∷ t / 256 % 256 ∷ t % 256 ∷ []

get_or-byte : (buf : List ℕ) (i : ℕ) → AllBytes buf → get_or buf i 0 < 256
get_or-byte [] i a = omega arith
get_or-byte (b ∷ buf) zero a = a.0
get_or-byte (b ∷ buf) (suc i) a = get_or-byte buf i a.1

-- Two numbers of 20 bits that are laid out as the datasheet says are what the extraction gives,
-- whatever the status and the checksum.
pub raw-frame :
    (status h t crc : ℕ)
    → h < 2 ^ 20
    → t < 2 ^ 20
    → (raw_humidity (frame status h t ++ (crc ∷ [])) ≡ h)
      × (raw_temperature (frame status h t ++ (crc ∷ [])) ≡ t)
raw-frame status h t crc hh ht = (omega arith, omega arith)

-- Any bytes that are received give numbers of 20 bits, so the converted values stay within the range
-- of the sensor.
raw-bounded :
    (buf : List ℕ) → AllBytes buf → (raw_humidity buf < 2 ^ 20) × (raw_temperature buf < 2 ^ 20)
raw-bounded buf a =
    let b1 = get_or-byte buf 1 a in
    let b2 = get_or-byte buf 2 a in
    let b3 = get_or-byte buf 3 a in
    let b4 = get_or-byte buf 4 a in let b5 = get_or-byte buf 5 a in (omega arith, omega arith)

-- A successful read wrote the numbers of a frame whose checksum is right.
read_data-checked :
    (bus : I2c) (d : bus.Dev) (h t : ℕ)
    → (read_data bus d).1 ≡ some (h, t)
    → let (err, buf, d1) = bus.receive 7 d in
      (err ≡ ok)
      × (dht20_crc8 (take 6 buf) ≡ get_or buf 6 0)
      × (h ≡ raw_humidity buf)
      × (t ≡ raw_temperature buf)
unfolding read_data
read_data-checked bus d h t e = ground arith
