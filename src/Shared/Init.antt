-- ===== src/Shared/Init.antt =====
-- `dsp_shared_init` and `dsp_shared_deinit`: every outcome, and the FreeRTOS objects held.
use dsp_embedded.Prelude.{
  ℕ, ◌+◌, ◌≡◌, ◌≢◌, refl, Option, none, some, inl, ◌&&◌, ◌⊎◌, true, false, Bool, arith,
  if◌then◌else◌,
}
use dsp_embedded.Esp.{ok, no_mem, invalid_arg}
use dsp_embedded.Shared.{Shared, Grants, init, deinit, zero_ring}

abbrev pub one_if : Bool → ℕ
one_if b = if b then 1 else 0

-- How many FreeRTOS objects the struct's handles stand for.
abbrev pub handles : Shared → ℕ
handles sh = one_if sh.mutex + one_if sh.xfer_q + one_if sh.data_q

-- How many objects the handles behind a pointer stand for.
abbrev pub handles_of : Option Shared → ℕ
handles_of none = 0
handles_of (some sh) = handles sh

-- `dsp_shared_init` refuses NULL with ESP_ERR_INVALID_ARG. Otherwise it succeeds exactly when FreeRTOS
-- grants all three objects, and fails with ESP_ERR_NO_MEM if not. On every branch the objects that
-- FreeRTOS holds in addition are those of the handles in the struct: all three, or none.
pub init_lem :
    (g : Grants) (sh : Option Shared) (held : ℕ)
    → let (err, sh', held') = init g sh held in
      (held' ≡ held + handles_of sh')
      × (((sh ≡ none) × (err ≡ invalid_arg) × (sh' ≡ none))
          ⊎ ((sh ≢ none)
              × (err ≡ ok)
              × (g.mutex_ok && g.xfer_q_ok && g.data_q_ok ≡ true)
              × (handles_of sh' ≡ 3))
          ⊎ ((sh ≢ none)
              × (err ≡ no_mem)
              × (g.mutex_ok && g.xfer_q_ok && g.data_q_ok ≡ false)
              × (handles_of sh' ≡ 0)))
unfolding init
init_lem g none held = (omega arith, inl (refl, refl, refl))
init_lem g (some sh) held = ground arith

-- Whatever of the struct's objects exist, `dsp_shared_deinit` returns them all and leaves an empty
-- ring, NULL handles and both flags clear, so that a second call returns nothing more.
deinit_lem :
    (sh : Shared) (held : ℕ)
    → let (sh', held') = deinit sh (held + handles sh) in
      (held' ≡ held)
      × (sh'.ring ≡ zero_ring)
      × (handles sh' ≡ 0)
      × (sh'.core0_ready ≡ 0)
      × (sh'.core1_ready ≡ 0)
      × ((deinit sh' held').1 ≡ held')
unfolding deinit
deinit_lem sh held = ground arith
