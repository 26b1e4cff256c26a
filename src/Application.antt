-- ===== src/Application.antt =====
-- components/dsp_application/dsp_application.c, as built for the device: the acquisition task of the
-- second core. Whether FreeRTOS creates the task, the clock, and the conversion of the raw numbers of
-- the sensor to fixed-point values by way of `float` are parameters. The watchdog and the delay
-- between two cycles are not modelled.
use dsp_embedded.Prelude.{
  ℕ, Bool, true, false, not, Option, none, some, List, [], ◌∷◌, if◌then◌else◌,
}
use dsp_embedded.Esp.{EspErr, is_ok, ok, no_mem, invalid_arg}
use dsp_embedded.Shared.{Shared, Sample, push}
use dsp_embedded.Dht20
use dsp_embedded.Dht20.{I2c, Held, Answers, nothing_held}
pub mod Samples
pub mod Cycle
mod Tests

-- `DSP_DHT20_CH_TEMP` and `DSP_DHT20_CH_HUM`.
abbrev pub ch_temp : ℕ
ch_temp = 0

abbrev pub ch_hum : ℕ
ch_hum = 1

-- The static state: `s_sh`, `s_running`, `s_dht20` and `s_task_handle`.
pub record Application : Type 0 where
  pub sh : Option Shared
  pub running : Bool
  pub sensor : Held
  pub task : Bool

-- The conversions to hundredths, `(uint32_t)(int32_t)(temperature_c * 100.0f)` and
-- `(uint32_t)(humidity_pct * 100.0f)`, from the raw numbers.
pub record Scale : Type 0 where
  pub temperature : ℕ → ℕ
  pub humidity : ℕ → ℕ

-- The two samples of a reading, whose raw humidity stands first.
abbrev pub temp_sample : Scale → ℕ → ℕ × ℕ → Sample
temp_sample scale now r = record {
  timestamp_us = now;
  raw_value = scale.temperature r.1;
  channel = ch_temp;
}

abbrev pub hum_sample : Scale → ℕ → ℕ × ℕ → Sample
hum_sample scale now r = record {
  timestamp_us = now;
  raw_value = scale.humidity r.0;
  channel = ch_hum;
}

-- `acquire_dht20_samples` on what `dsp_dht20_read` returned and wrote. A sample that is dropped is
-- logged only.
pub acquire : Scale → Option Shared → ℕ → EspErr → Option (ℕ × ℕ) → Option Shared
acquire scale sh now err none = sh
acquire scale sh now err (some r) =
    if not (is_ok err)
    then sh
    else let (err1, sh1) = push sh (some (temp_sample scale now r)) in
      let (err2, sh2) = push sh1 (some (hum_sample scale now r)) in sh2

-- `sh->core1_ready = ready`, where there is a `sh`.
abbrev pub set_ready : ℕ → Option Shared → Option Shared
set_ready ready none = none
set_ready ready (some sh) = some (record sh { core1_ready = ready })

module _ (bus : I2c) where
  -- `application_init`, whose `sh` is `s_sh`.
  unfoldable application_init : Answers → Application → bus.Dev → Application × bus.Dev
  application_init a app d =
      let (err, held, d1) = Dht20.init bus true a d in
      let sensor' = if is_ok err then held else app.sensor in
      (record app { sh = set_ready 1 app.sh; running = true; sensor = sensor' }, d1)

  -- The result of `dsp_dht20_read` in a cycle of `application_task`.
  abbrev pub sampled :
      Scale
      → ℕ
      → Application
      → Option (EspErr × Option (ℕ × ℕ) × bus.Dev)
      → Option (Application × bus.Dev)
  sampled scale now app none = none
  sampled scale now app (some (err, out, d)) =
      some (record app { sh = acquire scale app.sh now err out }, d)

  -- One cycle of the loop of `application_task`, on the fuel of the sensor's busy loop.
  pub cycle : Scale → ℕ → ℕ → Application → bus.Dev → Option (Application × bus.Dev)
  cycle scale fuel now app d =
      let result = sampled scale now app (Dht20.read bus fuel d) in
      if app.sensor.context then result else some (app, d)

-- `dsp_application_start`; the Boolean says that the task was created.
unfoldable start : Option Shared → Bool → Application → EspErr × Application
start none created app = (invalid_arg, app)
start (some sh) created app =
    if not created
    then (no_mem, record app { sh = none })
    else (ok, record app { sh = some sh; task = true })

-- `dsp_application_stop`, with what it leaves in the shared state.
unfoldable stop : Application → Option Shared × Application
stop app = (
  set_ready 0 app.sh,
  record { sh = none; running = false; sensor = Dht20.deinit app.sensor; task = false },
)

abbrev is_running : Application → Bool
is_running app = app.running
