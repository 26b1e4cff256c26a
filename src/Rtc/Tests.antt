-- ===== src/Rtc/Tests.antt =====
-- dsp_rtc_state at concrete inputs.
use dsp_embedded.Prelude.{
  length, AllBytes, ℕ, ◌≡◌, ◌≢◌, ◌<◌, refl, ◌⊎◌, true, false, [], ◌∷◌, List, Bool, arith, map, ltb,
  ◌&&◌, Text, &&-true, drop,
}
use dsp_embedded.Esp.{ok, invalid_state, invalid_crc}
use dsp_embedded.Neg
use dsp_embedded.Neg.{NegEntry, Negotiations}
use dsp_embedded.Xfer
use dsp_embedded.Xfer.{XferEntry, Transfers}
use dsp_embedded.Rtc.{
  Store, save, restore, is_valid, image_crc, compute_crc32, crc32_update, crc_rounds, crc_round,
  rtc_magic, xfer_bytes, zero_xfer_slot,
}
use dsp_embedded.Rtc.Restore.{kept, xkept, restore-save}
use dsp_embedded.Rtc.Validity.{restore_status, single_byte_detected}

abbrev urn_a : Text
urn_a = 97 ∷ 49 ∷ []

-- One agreed negotiation and a free slot; one running transfer.
abbrev negs : Negotiations
negs = record {
  table = record (Neg.fresh_entry urn_a urn_a) { state = Neg.agreed } ∷ Neg.zero_entry ∷ [];
  initialized = true;
}

abbrev xfers : Transfers
xfers = record {
  table = record (Xfer.fresh_entry urn_a) { state = Xfer.transferring } ∷ [];
  initialized = true;
  has_notify = true;
  notified = 0 ∷ [];
}

-- dsp_xfer after a wake-up.
abbrev woken : Transfers
woken = record {
  table = Xfer.wipe xfers.table;
  initialized = true;
  has_notify = false;
  notified = [];
}

restore-save_example :
    restore (save negs xfers).1 (record { table = Neg.wipe negs.table; initialized = true }) woken
    ≡ (
      ok,
      record { table = map kept negs.table; initialized = true },
      record woken { table = map xkept xfers.table },
    )
restore-save_example =
    restore-save negs xfers woken ((omega arith, omega arith), ((omega arith, omega arith), tt))
      (omega arith, tt) refl refl

abbrev cold : Store
cold = record { magic = 0; crc32 = 0; neg = []; xfer = [] }

restore_status_example :
    let (err, m', x') = restore cold negs xfers in
    ((is_valid cold ≡ true)
      × (cold.magic ≡ rtc_magic)
      × (compute_crc32 cold ≡ cold.crc32)
      × (err ≡ ok)
      × (length m'.table ≡ length negs.table)
      × (length x'.table ≡ length xfers.table))
    ⊎ ((is_valid cold ≡ false)
        × (cold.magic ≢ rtc_magic)
        × (err ≡ invalid_state)
        × (m' ≡ negs)
        × (x' ≡ xfers))
    ⊎ ((is_valid cold ≡ false)
        × (cold.magic ≡ rtc_magic)
        × (compute_crc32 cold ≢ cold.crc32)
        × (err ≡ invalid_crc)
        × (m' ≡ negs)
        × (x' ≡ xfers))
restore_status_example = restore_status cold negs xfers

all_bytes : List ℕ → Bool
all_bytes [] = true
all_bytes (b ∷ bs) = ltb b 256 && all_bytes bs

all_bytes-AllBytes : (bs : List ℕ) → all_bytes bs ≡ true → AllBytes bs
unfolding all_bytes
all_bytes-AllBytes [] h = tt
all_bytes-AllBytes (b ∷ bs) h =
    let low : b < 256 = ground (arith, &&-true (ltb b 256)) in
    (low, all_bytes-AllBytes bs (ground arith))

-- A store of one blank transfer slot, and its bytes.
abbrev blank : Store
blank = record {
  magic = rtc_magic;
  crc32 = image_crc [] (xfer_bytes (zero_xfer_slot ∷ []));
  neg = [];
  xfer = zero_xfer_slot ∷ [];
}

abbrev blank_rest : List ℕ
blank_rest = drop 1 (xfer_bytes blank.xfer)

blank-is_valid : is_valid blank ≡ true
unfolding is_valid compute_crc32 image_crc crc32_update crc_rounds crc_round
blank-is_valid = refl

blank-all_bytes : all_bytes (0 ∷ blank_rest) ≡ true
unfolding all_bytes
blank-all_bytes = refl

single_byte_detected_example : image_crc [] (1 ∷ blank_rest) ≢ blank.crc32
single_byte_detected_example =
    single_byte_detected blank [] (1 ∷ blank_rest) [] blank_rest 0 1 blank-is_valid refl refl
      (all_bytes-AllBytes (0 ∷ blank_rest) blank-all_bytes) (omega arith) (omega arith)
