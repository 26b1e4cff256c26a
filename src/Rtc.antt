-- ===== src/Rtc.antt =====
-- components/dsp_rtc_state/dsp_rtc_state.c and include/dsp_rtc_state.h: the copy of the negotiation
-- and transfer tables that survives deep sleep. The bytes of the image are those of the ESP32, which
-- is little-endian. A slot's state is kept as a value of its enumeration, so an image with a state
-- code outside of it is not represented; its bytes are, in `image_crc`.
use dsp_embedded.Prelude.{
  ℕ, zero, suc, ◌+◌, ◌-◌, ◌*◌, ◌/◌, ◌%◌, ◌^◌, ◌≡◌, Bool, true, false, not, Option, none, some, List,
  [], ◌∷◌, ◌++◌, if◌then◌else◌, ◌==◌, length, take, replicate, bit_and, bit_xor, Text,
  strncpy_field, tabulate, ℤ, pos,
}
use dsp_embedded.Esp.{EspErr, ok, invalid_state, invalid_crc}
use dsp_embedded.Neg
use dsp_embedded.Neg.{NegState, Negotiations}
use dsp_embedded.Xfer
use dsp_embedded.Xfer.{XferState, Transfers}
pub mod Crc
pub mod Restore
pub mod Validity
mod Tests

-- `dsp_rtc_neg_slot_t`, without its padding.
pub record RtcNegSlot : Type 0 where
  pub active : ℕ
  pub state : NegState
  pub consumer_pid : Text
  pub provider_pid : Text

-- `dsp_rtc_xfer_slot_t`, without its padding.
pub record RtcXferSlot : Type 0 where
  pub active : ℕ
  pub state : XferState
  pub process_id : Text

-- `dsp_rtc_state_t`, the static `s_store`.
pub record Store : Type 0 where
  pub magic : ℕ
  pub crc32 : ℕ
  pub neg : List RtcNegSlot
  pub xfer : List RtcXferSlot

-- `DSP_RTC_MAGIC`.
abbrev pub rtc_magic : ℕ
rtc_magic = 0x44355035

abbrev pub zero_neg_slot : RtcNegSlot
zero_neg_slot = record { active = 0; state = Neg.initial; consumer_pid = []; provider_pid = [] }

abbrev pub zero_xfer_slot : RtcXferSlot
zero_xfer_slot = record { active = 0; state = Xfer.initial; process_id = [] }

-- The values of the enumerations.
abbrev pub neg_code : NegState → ℕ
neg_code Neg.initial = 0
neg_code Neg.requested = 1
neg_code Neg.offered = 2
neg_code Neg.agreed = 3
neg_code Neg.verified = 4
neg_code Neg.finalized = 5
neg_code Neg.terminated = 6

abbrev pub xfer_code : XferState → ℕ
xfer_code Xfer.initial = 0
xfer_code Xfer.transferring = 1
xfer_code Xfer.completed = 2
xfer_code Xfer.failed = 3

-- The bytes of a `uint32_t`, and of a `char[64]` that holds a string.
abbrev pub le32 : ℕ → List ℕ
le32 w = w % 256 ∷ w / 256 % 256 ∷ w / 65536 % 256 ∷ w / 16777216 % 256 ∷ []

abbrev pub char64 : Text → List ℕ
char64 s = take 64 s ++ replicate (64 - length s) 0

abbrev pub neg_slot_bytes : RtcNegSlot → List ℕ
neg_slot_bytes s =
    (s.active ∷ 0 ∷ 0 ∷ 0 ∷ [])
    ++ (le32 (neg_code s.state) ++ (char64 s.consumer_pid ++ char64 s.provider_pid))

abbrev pub xfer_slot_bytes : RtcXferSlot → List ℕ
xfer_slot_bytes s = (s.active ∷ 0 ∷ 0 ∷ 0 ∷ []) ++ (le32 (xfer_code s.state) ++ char64 s.process_id)

abbrev pub neg_bytes : List RtcNegSlot → List ℕ
neg_bytes [] = []
neg_bytes (s ∷ ss) = neg_slot_bytes s ++ neg_bytes ss

abbrev pub xfer_bytes : List RtcXferSlot → List ℕ
xfer_bytes [] = []
xfer_bytes (s ∷ ss) = xfer_slot_bytes s ++ xfer_bytes ss

-- One round of the inner loop of `crc32_update`.
pub crc_round : ℕ → ℕ
crc_round crc = if not (bit_and crc 1 == 0) then bit_xor (crc / 2) 0xEDB88320 else crc / 2

-- The inner loop, with the rounds left.
pub crc_rounds : ℕ → ℕ → ℕ
crc_rounds zero crc = crc
crc_rounds (suc n) crc = crc_rounds n (crc_round crc)

pub crc32_update : ℕ → List ℕ → ℕ
crc32_update crc [] = crc
crc32_update crc (b ∷ buf) = crc32_update (crc_rounds 8 (bit_xor crc b)) buf

-- `compute_crc32` on the bytes of the two arrays.
pub image_crc : List ℕ → List ℕ → ℕ
image_crc neg xfer = bit_xor (crc32_update (crc32_update 0xFFFFFFFF neg) xfer) 0xFFFFFFFF

pub compute_crc32 : Store → ℕ
compute_crc32 s = image_crc (neg_bytes s.neg) (xfer_bytes s.xfer)

-- A string field that is written only if the accessor returned one.
abbrev pub copy_pid : ℕ → Option Text → Text
copy_pid len none = []
copy_pid len (some pid) = strncpy_field len pid

-- What one round of the first loop of `dsp_rtc_state_save` leaves in the zeroed slot `i`.
pub save_neg_slot : Negotiations → ℕ → RtcNegSlot
save_neg_slot m i = if not (Neg.is_active m (pos i)) then zero_neg_slot else record {
  active = 1;
  state = Neg.get_state m (pos i);
  consumer_pid = copy_pid Neg.pid_len (Neg.get_consumer_pid m (pos i));
  provider_pid = copy_pid Neg.pid_len (Neg.get_provider_pid m (pos i));
}

pub save_xfer_slot : Transfers → ℕ → RtcXferSlot
save_xfer_slot x i = if not (Xfer.is_active x (pos i)) then zero_xfer_slot else record {
  active = 1;
  state = Xfer.get_state x (pos i);
  process_id = copy_pid Xfer.pid_len (Xfer.get_process_id x (pos i));
}

-- `dsp_rtc_state_save`. Nothing of the old store is kept.
pub save : Negotiations → Transfers → EspErr × Store
save m x =
    let neg = tabulate (save_neg_slot m) 0 (length m.table) in
    let xfer = tabulate (save_xfer_slot x) 0 (length x.table) in
    let crc = image_crc (neg_bytes neg) (xfer_bytes xfer) in
    (ok, record { magic = rtc_magic; crc32 = crc; neg = neg; xfer = xfer })

-- The loops of `dsp_rtc_state_restore`, from index `i` on. The results of the loads are not read.
pub restore_neg : ℕ → List RtcNegSlot → Negotiations → Negotiations
restore_neg i [] m = m
restore_neg i (s ∷ ss) m = restore_neg (i + 1) ss (
    if s.active == 0
    then m
    else (Neg.load_slot m (pos i) s.state (some s.consumer_pid) (some s.provider_pid)).1)

pub restore_xfer : ℕ → List RtcXferSlot → Transfers → Transfers
restore_xfer i [] x = x
restore_xfer i (s ∷ ss) x =
    restore_xfer (i + 1) ss
      (if s.active == 0 then x else (Xfer.load_slot x (pos i) s.state (some s.process_id)).1)

pub restore : Store → Negotiations → Transfers → EspErr × Negotiations × Transfers
restore s m x =
    if not (s.magic == rtc_magic)
    then (invalid_state, m, x)
    else if not (compute_crc32 s == s.crc32)
    then (invalid_crc, m, x)
    else (ok, restore_neg 0 s.neg m, restore_xfer 0 s.xfer x)

-- `dsp_rtc_state_clear` zeroes the whole store.
abbrev pub zero_neg_slots : List RtcNegSlot → List RtcNegSlot
zero_neg_slots [] = []
zero_neg_slots (s ∷ ss) = zero_neg_slot ∷ zero_neg_slots ss

abbrev pub zero_xfer_slots : List RtcXferSlot → List RtcXferSlot
zero_xfer_slots [] = []
zero_xfer_slots (s ∷ ss) = zero_xfer_slot ∷ zero_xfer_slots ss

pub clear : Store → Store
clear s = record { magic = 0; crc32 = 0; neg = zero_neg_slots s.neg; xfer = zero_xfer_slots s.xfer }

pub is_valid : Store → Bool
is_valid s = if not (s.magic == rtc_magic) then false else compute_crc32 s == s.crc32

-- `dsp_rtc_state_corrupt_crc_for_testing`.
pub corrupt_crc : Store → Store
corrupt_crc s = record s { crc32 = bit_xor s.crc32 0xFFFFFFFF }
