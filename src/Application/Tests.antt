-- ===== src/Application/Tests.antt =====
-- dsp_application at a concrete sensor and ring buffer.
use dsp_embedded.Prelude.{
  ℕ, ◌-◌, ◌≡◌, refl, true, none, some, List, [], ◌∷◌, ◌++◌, take, if◌then◌else◌, ◌==◌,
}
use dsp_embedded.Esp.{ok, fail}
use dsp_embedded.Shared.{Shared, zero_shared}
use dsp_embedded.Shared.Ring.{contents, zero_ring-IsValid}
use dsp_embedded.Shared.Clients.{Holds}
use dsp_embedded.Dht20.{I2c, nothing_held}
use dsp_embedded.Application.{Application, Scale}
use dsp_embedded.Application.Samples.{Reading, acquire_all, all_samples, acquire_all_lem}
use dsp_embedded.Application.Cycle.{cycles, cycles-ends, IsAttached}

-- A sensor that is ready at once, and whose frames have a wrong checksum.
abbrev broken : I2c
broken = record {
  Dev = ℕ;
  transmit = λ bytes d. (ok, d);
  receive = λ n d. if n == 1 then (ok, 0x18 ∷ [], d) else (ok, [], d);
  delay = λ ms d. d;
}

abbrev scale : Scale
scale = record { temperature = λ r. r - 5000; humidity = λ r. r }

abbrev shared : Shared
shared = record zero_shared { mutex = true; data_q = true }

abbrev app : Application
app = record {
  sh = some shared;
  running = true;
  sensor = record nothing_held { context = true; bus_handle = true; dev_handle = true };
  task = true;
}

abbrev readings : List Reading
readings =
    record { status = ok; out = some (400, 7000); now = 10 }
    ∷ record { status = fail; out = none; now = 20 }
    ∷ record { status = ok; out = some (410, 7010); now = 30 }
    ∷ []

test_four :
    all_samples scale readings
    ≡ record { timestamp_us = 10; raw_value = 2000; channel = 0 }
      ∷ record { timestamp_us = 10; raw_value = 400; channel = 1 }
      ∷ record { timestamp_us = 30; raw_value = 2010; channel = 0 }
      ∷ record { timestamp_us = 30; raw_value = 410; channel = 1 }
      ∷ []
test_four = refl

acquire_all_lem_example :
    Holds
      (acquire_all scale (some shared) readings)
      (take 32 (contents shared.ring ++ all_samples scale readings))
acquire_all_lem_example = acquire_all_lem scale readings shared zero_ring-IsValid

cycles-ends_example :
    (r : Application × ℕ) × (cycles broken scale 184 (10 ∷ 20 ∷ []) app 0 ≡ some r)
    × IsAttached r.0.sh
cycles-ends_example = cycles-ends broken scale (10 ∷ 20 ∷ []) app 0 zero_ring-IsValid
