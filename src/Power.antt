-- ===== src/Power.antt =====
-- components/dsp_power/dsp_power.c, as built for the device with deep sleep: what is done before deep
-- sleep and after waking. The cause that ESP-IDF gives for waking and the status of `esp_wifi_start`
-- are arguments. The set-up of the watchdog in dsp_power_pm_init is not modelled.
use dsp_embedded.Prelude.{ℕ, Bool, true, false, not, if◌then◌else◌}
use dsp_embedded.Esp.{EspErr, is_ok, ok, invalid_state}
use dsp_embedded.Neg.{Negotiations}
use dsp_embedded.Xfer.{Transfers}
use dsp_embedded.Rtc.{Store, save, restore}
use dsp_embedded.Http
use dsp_embedded.Http.{Httpd, Http}
use dsp_embedded.Wifi
use dsp_embedded.Wifi.{Wifi}
pub mod Kept
pub mod Cycle
mod Tests

-- `dsp_power_wakeup_cause_t`.
pub data WakeupCause : Type 0 where
  wakeup_undefined wakeup_timer wakeup_other : WakeupCause

abbrev pub is_timer : WakeupCause → Bool
is_timer wakeup_timer = true
is_timer c = false

-- The static state of the modules that these functions reach, and the memory that survives deep
-- sleep.
pub record Device (h : Httpd) : Type 0 where
  pub neg : Negotiations
  pub xfer : Transfers
  pub store : Store
  pub http : Http h
  pub wifi : Wifi

-- `dsp_power_enter_deep_sleep`, up to `esp_deep_sleep_start`.
pub enter_deep_sleep : (h : Httpd) → Device h → EspErr × Device h
enter_deep_sleep h d = (ok, record d { store = (save d.neg d.xfer).1; http = Http.stop h d.http })

-- The steps behind a restore: the errors of both calls are logged only.
pub reconnect : (h : Httpd) → EspErr → Device h → EspErr × Device h
reconnect h started d =
    (ok, record d { wifi = (Wifi.connect d.wifi started).1; http = (Http.start h d.http).1 })

-- The result of `dsp_rtc_state_restore`.
abbrev pub restored :
    (h : Httpd) → EspErr → Device h → EspErr × Negotiations × Transfers → EspErr × Device h
restored h started d (err, m, x) =
    let d' : Device h = record d { neg = m; xfer = x } in
    if not (is_ok err) then (err, d') else reconnect h started d'

pub handle_wakeup : (h : Httpd) → WakeupCause → EspErr → Device h → EspErr × Device h
handle_wakeup h cause started d =
    if not (is_timer cause)
    then (invalid_state, d)
    else restored h started d (restore d.store d.neg d.xfer)
