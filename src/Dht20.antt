-- ===== src/Dht20.antt =====
-- components/dsp_dht20/dsp_dht20.c, as built for the device: the driver of the sensor for temperature
-- and humidity. The I2C driver, the heap and the delay are parameters. A reading is kept as the two
-- raw numbers of 20 bits: their conversion to `float` is not modelled. The operands of `|` in the
-- extraction have no bit in common, so it is written as a sum.
use dsp_embedded.Prelude.{
  ℕ, zero, suc, ◌+◌, ◌-◌, ◌*◌, ◌/◌, ◌%◌, bit_and, bit_or, bit_xor, Bool, true, false, not, Option,
  none, some, List, [], ◌∷◌, if◌then◌else◌, ltb, leb, ◌==◌, get_or, take,
}
use dsp_embedded.Esp.{EspErr, is_ok, ok, fail, no_mem, timeout, invalid_arg, invalid_crc}
pub mod Crc8
pub mod Poll
pub mod Reading
pub mod Setup
mod Tests

-- One round of the inner loop of `dht20_crc8`.
pub crc8_round : ℕ → ℕ
crc8_round crc = if not (bit_and crc 0x80 == 0) then bit_xor (crc * 2 % 256) 0x31 else crc * 2 % 256

pub crc8_rounds : ℕ → ℕ → ℕ
crc8_rounds zero crc = crc
crc8_rounds (suc n) crc = crc8_rounds n (crc8_round crc)

-- `dht20_crc8`, from a checksum on.
pub crc8_from : ℕ → List ℕ → ℕ
crc8_from crc [] = crc
crc8_from crc (b ∷ data_) = crc8_from (crc8_rounds 8 (bit_xor crc b)) data_

pub dht20_crc8 : List ℕ → ℕ
dht20_crc8 = crc8_from 0xFF

-- The I2C driver and the delay, over a state of the device.
pub record I2c : Type 1 where
  pub Dev : Type 0
  pub transmit : List ℕ → Dev → EspErr × Dev
  pub receive : ℕ → Dev → EspErr × List ℕ × Dev
  pub delay : ℕ → Dev → Dev

module _ (bus : I2c) where
  -- `dht20_reset_register`.
  unfoldable reset_register : bus.Dev → ℕ → EspErr × bus.Dev
  reset_register d reg =
      let (err, d1) = bus.transmit (reg ∷ 0 ∷ 0 ∷ []) d in
      if not (is_ok err)
      then (err, d1)
      else let (err2, rx, d2) = bus.receive 3 (bus.delay 5 d1) in
        if not (is_ok err2)
        then (err2, d2)
        else let fixup = bit_or 0xB0 reg ∷ get_or rx 1 0 ∷ get_or rx 2 0 ∷ [] in
          let (err3, d3) = bus.transmit fixup (bus.delay 10 d2) in
          if not (is_ok err3) then (err3, d3) else (ok, bus.delay 5 d3)

  -- The loop over the calibration registers that are left.
  unfoldable reset_registers : List ℕ → bus.Dev → EspErr × bus.Dev
  reset_registers [] d = (ok, d)
  reset_registers (reg ∷ regs) d =
      let (err, d1) = reset_register d reg in
      if not (is_ok err) then (err, d1) else reset_registers regs d1

  -- The busy loop of `dsp_dht20_read` on fuel, with the milliseconds waited so far; no result stands
  -- for a loop that has not ended.
  pub poll : ℕ → ℕ → bus.Dev → Option (EspErr × bus.Dev)
  poll zero waited_ms d = none
  poll (suc n) waited_ms d =
      let (err, rx, d1) = bus.receive 1 d in
      let rest = poll n (waited_ms + 5) (bus.delay 5 d1) in
      if not (is_ok err)
      then some (fail, d1)
      else if bit_and (get_or rx 0 0) 0x80 == 0
      then some (ok, d1)
      else if leb 1000 waited_ms
      then some (timeout, d1)
      else rest

abbrev pub raw_humidity : List ℕ → ℕ
raw_humidity buf = get_or buf 1 0 * 4096 + get_or buf 2 0 * 16 + get_or buf 3 0 / 16

abbrev pub raw_temperature : List ℕ → ℕ
raw_temperature buf = get_or buf 3 0 % 16 * 65536 + get_or buf 4 0 * 256 + get_or buf 5 0

-- The steps of `dsp_dht20_read` behind the busy loop; the option is what is written to `*out`.
module _ (bus : I2c) where
  pub read_data : bus.Dev → EspErr × Option (ℕ × ℕ) × bus.Dev
  read_data d =
      let (err, buf, d1) = bus.receive 7 d in
      if not (is_ok err)
      then (fail, none, d1)
      else if not (dht20_crc8 (take 6 buf) == get_or buf 6 0)
      then (invalid_crc, none, d1)
      else (ok, some (raw_humidity buf, raw_temperature buf), d1)

  pub after_poll : Option (EspErr × bus.Dev) → Option (EspErr × Option (ℕ × ℕ) × bus.Dev)
  after_poll none = none
  after_poll (some (err, d)) = if is_ok err then some (read_data d) else some (err, none, d)

  -- `dsp_dht20_read` with pointers that are not NULL, on the fuel of the busy loop.
  pub read : ℕ → bus.Dev → Option (EspErr × Option (ℕ × ℕ) × bus.Dev)
  read fuel d =
      let (err, d1) = bus.transmit (0xAC ∷ 0x33 ∷ 0x00 ∷ []) d in
      if not (is_ok err)
      then some (fail, none, d1)
      else after_poll (poll bus fuel 85 (bus.delay 85 d1))

-- What `dsp_dht20_init` has acquired: the context, the bus and the device on the bus.
pub record Held : Type 0 where
  pub context : Bool
  pub bus_handle : Bool
  pub dev_handle : Bool

abbrev pub nothing_held : Held
nothing_held = record { context = false; bus_handle = false; dev_handle = false }

-- What the heap and the I2C driver answer to the acquisitions.
pub record Answers : Type 0 where
  pub calloc_ok : Bool
  pub new_bus : EspErr
  pub add_device : EspErr

module _ (bus : I2c) where
  -- The part of `dsp_dht20_init` that talks to the device.
  unfoldable bring_up : bus.Dev → EspErr × bus.Dev
  bring_up d =
      let (err, rx, d1) = bus.receive 1 (bus.delay 100 d) in
      if not (is_ok err)
      then (fail, d1)
      else if bit_and (get_or rx 0 0) 0x18 == 0x18
      then (ok, d1)
      else let (err2, d2) = reset_registers bus (0x1B ∷ 0x1C ∷ 0x1E ∷ []) d1 in
        if is_ok err2 then (ok, bus.delay 10 d2) else (fail, d2)

  -- `dsp_dht20_init`: the status, what is held when it returns, and the device. The first argument says
  -- that the output is not NULL. The device is removed and the bus and the context freed on an error.
  pub init : Bool → Answers → bus.Dev → EspErr × Held × bus.Dev
  init out_handle a d =
      if not out_handle
      then (invalid_arg, nothing_held, d)
      else if not a.calloc_ok
      then (no_mem, nothing_held, d)
      else let h = record nothing_held { context = true } in
        if not (is_ok a.new_bus)
        then (fail, record h { context = false }, d)
        else let h1 = record h { bus_handle = true } in
          if not (is_ok a.add_device)
          then (fail, record h1 { bus_handle = false; context = false }, d)
          else let h2 = record h1 { dev_handle = true } in
            let (err, d1) = bring_up d in
            if not (is_ok err)
            then (fail, record h2 { dev_handle = false; bus_handle = false; context = false }, d1)
            else (ok, h2, d1)

-- `dsp_dht20_deinit`; no handle stands for NULL.
pub deinit : Held → Held
deinit h =
    if not h.context
    then h
    else record h { dev_handle = false; bus_handle = false; context = false }
