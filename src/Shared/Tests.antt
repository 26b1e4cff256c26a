-- ===== src/Shared/Tests.antt =====
-- dsp_shared at concrete inputs.
use dsp_embedded.Prelude.{
  ◌≡◌, ◌≢◌, none, refl, ◌⊎◌, ◌&&◌, ◌+◌, true, false, some, [], ◌∷◌, List, arith, set,
}
use dsp_embedded.Esp.{ok, no_mem, invalid_arg}
use dsp_embedded.Shared.{Sample, RingBuf, Shared, Grants, zero_ring, zero_sample, zero_shared, init}
use dsp_embedded.Shared.Init.{handles_of, init_lem}
use dsp_embedded.Shared.Ring.{IsValid, contents}
use dsp_embedded.Shared.Clients.{Call, put, get, grab, size, run, replies, run_refines}

abbrev sample : Sample
sample = record { timestamp_us = 5; raw_value = 7; channel = 1 }

-- Two samples that lie across the end of the array.
abbrev wrapped : RingBuf
wrapped = record { samples = set zero_ring.samples 31 sample; head = 1; tail = 31; count = 2 }

wrapped-IsValid : IsValid wrapped
wrapped-IsValid = record {
  storage = refl;
  tail_in = omega arith;
  count_in = omega arith;
  head_at = refl;
}

abbrev up : Shared
up = record zero_shared { ring = wrapped; mutex = true; xfer_q = true; data_q = true }

abbrev granted : Grants
granted = record { mutex_ok = true; xfer_q_ok = true; data_q_ok = false }

wrapped-contents : contents wrapped ≡ sample ∷ zero_sample ∷ []
wrapped-contents = refl

init_lem_example :
    let (err, sh', held') = init granted (some up) 4 in
    (held' ≡ 4 + handles_of sh')
    × (((some up ≡ none) × (err ≡ invalid_arg) × (sh' ≡ none))
        ⊎ ((some up ≢ none)
            × (err ≡ ok)
            × (granted.mutex_ok && granted.xfer_q_ok && granted.data_q_ok ≡ true)
            × (handles_of sh' ≡ 3))
        ⊎ ((some up ≢ none)
            × (err ≡ no_mem)
            × (granted.mutex_ok && granted.xfer_q_ok && granted.data_q_ok ≡ false)
            × (handles_of sh' ≡ 0)))
init_lem_example = init_lem granted (some up) 4

abbrev calls : List Call
calls = get ∷ put sample ∷ size ∷ grab 3 ∷ get ∷ []

run_refines_example : run (some up) calls ≡ replies (contents wrapped) calls
run_refines_example = run_refines calls up wrapped-IsValid
