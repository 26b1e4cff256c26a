-- ===== src/Power/Cycle.antt =====
-- A cycle of deep sleep and waking (components/dsp_power/dsp_power.c).
use dsp_embedded.Prelude.{ℕ, ◌≡◌, refl, true, false, map, Text}
use dsp_embedded.Esp.{EspErr, ok, invalid_state}
use dsp_embedded.Neg
use dsp_embedded.Neg.{Negotiations}
use dsp_embedded.Xfer
use dsp_embedded.Xfer.{Transfers}
use dsp_embedded.Rtc.Restore.{kept, xkept, AllFitXfer, restore-save}
use dsp_embedded.Http.{Httpd, Http}
use dsp_embedded.Wifi.{Wifi}
use dsp_embedded.Handlers.Tables.{AreSound}
use dsp_embedded.Power.{
  WakeupCause, wakeup_timer, Device, enter_deep_sleep, handle_wakeup, reconnect, is_timer,
}
use dsp_embedded.Power.Kept.{kept-AreSound}

-- The device after power-down and the initialisation of dsp_neg and dsp_xfer: only the store is kept.
abbrev pub rebooted : (h : Httpd) → Device h → Transfers → Http h → Wifi → Device h
rebooted h d x' http_ wifi_ = record {
  neg = record { table = Neg.wipe d.neg.table; initialized = true };
  xfer = x';
  store = d.store;
  http = http_;
  wifi = wifi_;
}

module _ (h : Httpd) where
  -- A device that goes to deep sleep and wakes by the timer, after dsp_neg and dsp_xfer are
  -- initialised again, has its negotiations and transfers back, slot by slot, with blank entries in
  -- the free slots; `ESP_OK` is returned whatever the WiFi and the HTTP server answer, and if before
  -- every transfer in use stood on a negotiation of its process ID in use, in no state before AGREED
  -- and with any property that depends on the process ID, so it does after.
  pub handle_wakeup-enter_deep_sleep :
      (W : Text → Type 0) (max : ℕ) (d : Device h) (x' : Transfers) (http_ : Http h) (wifi_ : Wifi)
      (started : EspErr)
      → AreSound W max d.neg d.xfer
      → AllFitXfer d.xfer.table
      → x'.initialized ≡ true
      → x'.table ≡ Xfer.wipe d.xfer.table
      → let (err, w) =
          handle_wakeup h wakeup_timer started
            (rebooted h (enter_deep_sleep h d).1 x' http_ wifi_) in
        (err ≡ ok)
        × (w.neg.table ≡ map kept d.neg.table)
        × (w.xfer.table ≡ map xkept d.xfer.table)
        × AreSound W max w.neg w.xfer
  unfolding handle_wakeup enter_deep_sleep reconnect
  handle_wakeup-enter_deep_sleep W max d x' http_ wifi_ started s fit up blank =
      rw (restore-save d.neg d.xfer x' s.well_formed.fit fit up blank)
        (refl, refl, refl, kept-AreSound d.neg d.xfer x' true s)

  -- Any other cause for waking leaves everything as it is and returns `ESP_ERR_INVALID_STATE`.
  pub handle_wakeup_otherwise :
      (cause : WakeupCause) (started : EspErr) (d : Device h)
      → is_timer cause ≡ false
      → handle_wakeup h cause started d ≡ (invalid_state, d)
  unfolding handle_wakeup
  handle_wakeup_otherwise cause started d e = rw e refl
