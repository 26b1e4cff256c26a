-- ===== src/Power/Tests.antt =====
-- dsp_power at a concrete device.
use dsp_embedded.Prelude.{◌≡◌, refl, arith, inl, inr, Bool, true, false, [], ◌∷◌, map, Text, codes}
use dsp_embedded.Esp.{ok, fail}
use dsp_embedded.Neg
use dsp_embedded.Xfer
use dsp_embedded.Xfer.{Transfers}
use dsp_embedded.Rtc.Restore.{kept, xkept}
use dsp_embedded.Http
use dsp_embedded.Http.{Httpd, Http}
use dsp_embedded.Wifi
use dsp_embedded.Wifi.{Wifi}
use dsp_embedded.Handlers.Tables.{AreSound}
use dsp_embedded.Power.{wakeup_timer, Device, enter_deep_sleep, handle_wakeup}
use dsp_embedded.Power.Cycle.{rebooted, handle_wakeup-enter_deep_sleep}

-- A server that never starts.
abbrev down : Httpd
down = record { Server = Bool; start_status = fail; fresh = true; register = λ s r. (ok, s) }

abbrev pid : Text
pid = codes "p1"

-- A transfer under way on an agreed negotiation, and a free slot in each table.
abbrev device : Device down
device = record {
  neg = record {
    table = record (Neg.fresh_entry pid pid) { state = Neg.agreed } ∷ Neg.zero_entry ∷ [];
    initialized = true;
  };
  xfer = record {
    table = record (Xfer.fresh_entry pid) { state = Xfer.transferring } ∷ Xfer.zero_entry ∷ [];
    initialized = true;
    has_notify = false;
    notified = [];
  };
  store = record { magic = 0; crc32 = 0; neg = []; xfer = [] };
  http = Http.boot down 2;
  wifi = Wifi.initialised 3 false;
}

-- The property that every process ID has.
abbrev Any : Text → Type 0
Any p = Unit {0}

device-AreSound : AreSound Any 2 device.neg device.xfer
device-AreSound = record {
  well_formed = record {
    sized = refl;
    packed = inl (refl, inr (refl, refl));
    fit = ((omega arith, omega arith), ((omega arith, omega arith), tt));
  };
  backed = (
    inr (record {
      place = 0;
      entry = record (Neg.fresh_entry pid pid) { state = Neg.agreed };
      there = refl;
      in_use = refl;
      same_pid = refl;
      far = omega arith;
      was = tt;
    }),
    (inl refl, tt),
  );
}

abbrev blank : Transfers
blank = record device.xfer { table = Xfer.wipe device.xfer.table }

handle_wakeup-enter_deep_sleep_example :
    let (err, w) = handle_wakeup down wakeup_timer fail (
      rebooted down
        (enter_deep_sleep down device).1
        blank
        (Http.boot down 2)
        (Wifi.initialised 3 false)) in
    (err ≡ ok)
    × (w.neg.table ≡ map kept device.neg.table)
    × (w.xfer.table ≡ map xkept device.xfer.table)
    × AreSound Any 2 w.neg w.xfer
handle_wakeup-enter_deep_sleep_example =
    handle_wakeup-enter_deep_sleep down Any 2 device blank (Http.boot down 2)
      (Wifi.initialised 3 false) fail device-AreSound (omega arith, (omega arith, tt)) refl refl
