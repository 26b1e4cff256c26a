-- ===== src/Dht20/Setup.antt =====
-- What `dsp_dht20_init` holds when it returns.
use dsp_embedded.Prelude.{◌≡◌, Bool, true, false, ◌⊎◌, arith}
use dsp_embedded.Esp.{ok, fail, no_mem, invalid_arg}
use dsp_embedded.Dht20.{I2c, Held, nothing_held, Answers, init, deinit}

abbrev pub all_held : Held
all_held = record { context = true; bus_handle = true; dev_handle = true }

-- `dsp_dht20_init` returns ESP_OK holding the context, the bus and the device, or it returns another
-- status (ESP_ERR_INVALID_ARG for a NULL output, ESP_ERR_NO_MEM only without a context, else ESP_FAIL)
-- and holds nothing; after `dsp_dht20_deinit` nothing is held in either case.
pub init-Held :
    (bus : I2c) (out_handle : Bool) (a : Answers) (d : bus.Dev)
    → let (err, held, d1) = init bus out_handle a d in
      (((out_handle ≡ true) × (err ≡ ok) × (held ≡ all_held))
        ⊎ ((out_handle ≡ true) × (err ≡ fail) × (a.calloc_ok ≡ true) × (held ≡ nothing_held))
        ⊎ ((out_handle ≡ true) × (err ≡ no_mem) × (a.calloc_ok ≡ false) × (held ≡ nothing_held))
        ⊎ ((out_handle ≡ false) × (err ≡ invalid_arg) × (held ≡ nothing_held)))
      × (deinit held ≡ nothing_held)
unfolding init deinit
init-Held bus out_handle a d = ground arith
