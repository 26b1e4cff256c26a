-- ===== src/Neg.antt =====
-- components/dsp_neg/dsp_neg.c and include/dsp_neg.h: the state machine of a contract negotiation
-- and the slot table. The table is a list whose length is DSP_NEG_MAX; an `int` index is an integer
-- and a pointer that may be NULL an option; a function that changes the module's state returns it.
use dsp_embedded.Prelude.{
  ℕ, zero, suc, ◌≡◌, Bool, true, false, not, ◌&&◌, ◌||◌, Option, none, some, List, [], ◌∷◌, map,
  if◌then◌else◌, ltb, get_elem?, set, length, replicate, find_index, count, Text, strncpy_field,
  strncmp_eq, ℤ, pos, negsuc, index_or_minus_one,
}
use dsp_embedded.Esp.{EspErr, ok, invalid_arg, invalid_state}
pub mod Machine
pub mod Slots
pub mod Ledger
pub mod Refine
pub mod Lifecycle
pub mod Lives
pub mod Found
pub mod Stands
mod Tests

-- `dsp_neg_state_t`.
pub data NegState : Type 0 where
  initial requested offered agreed verified finalized terminated : NegState

-- `dsp_neg_event_t`.
pub data NegEvent : Type 0 where
  offer agree verify finalize terminate : NegEvent

unfoldable pub sm_next : NegState → NegEvent → NegState
sm_next requested offer = offered
sm_next requested agree = agreed
sm_next requested terminate = terminated
sm_next requested _ = requested
sm_next offered agree = agreed
sm_next offered terminate = terminated
sm_next offered _ = offered
sm_next agreed verify = verified
sm_next agreed terminate = terminated
sm_next agreed _ = agreed
sm_next verified finalize = finalized
sm_next verified terminate = terminated
sm_next verified _ = verified
sm_next finalized _ = finalized
sm_next terminated _ = terminated
sm_next initial _ = initial

-- `dsp_neg_entry_t`. The PID fields are `char[64]`.
pub record NegEntry : Type 0 where
  pub state : NegState
  pub consumer_pid : Text
  pub provider_pid : Text
  pub active : Bool

-- `DSP_NEG_PID_LEN`.
abbrev pub pid_len : ℕ
pid_len = 64

-- An entry of zero bytes.
abbrev pub zero_entry : NegEntry
zero_entry = record { state = initial; consumer_pid = []; provider_pid = []; active = false }

-- The module's static state, `s_table` and `s_initialized`.
pub record Negotiations : Type 0 where
  pub table : List NegEntry
  pub initialized : Bool

-- The state at boot, for a table of `max` slots.
abbrev pub boot : ℕ → Negotiations
boot max = record { table = replicate max zero_entry; initialized = false }

-- `memset(s_table, 0, sizeof(s_table))`.
abbrev pub wipe : List NegEntry → List NegEntry
wipe = map (λ e. zero_entry)

unfoldable pub init : Negotiations → EspErr × Negotiations
init m = (ok, if m.initialized then m else record { table = wipe m.table; initialized = true })

unfoldable pub deinit : Negotiations → Negotiations
deinit m = record { table = wipe m.table; initialized = false }

abbrev pub is_free : NegEntry → Bool
is_free e = not e.active

abbrev pub fresh_entry : Text → Text → NegEntry
fresh_entry cpid ppid = record {
  state = requested;
  consumer_pid = strncpy_field pid_len cpid;
  provider_pid = strncpy_field pid_len ppid;
  active = true;
}

pub create : Negotiations → Option Text → Option Text → ℤ × Negotiations
create m none ppid = (negsuc 0, m)
create m (some cpid) none = (negsuc 0, m)
create m (some cpid) (some ppid) = elim (find_index is_free m.table) [
  | none ↦ (negsuc 0, m)
  | some i ↦ (pos i, record m { table = set m.table i (fresh_entry cpid ppid) })
]

-- The guard that the accessors share: the entry at an index in range that is active.
unfoldable pub slot : Negotiations → ℤ → Option NegEntry
slot m (negsuc n) = none
slot m (pos i) = elim (get_elem? m.table i) [
  | none ↦ none
  | some e ↦ if e.active then some e else none
]

pub apply : Negotiations → ℤ → NegEvent → NegState × Negotiations
unfolding slot
apply m (negsuc n) event = (initial, m)
apply m (pos i) event = elim (slot m (pos i)) [
  | none ↦ (initial, m)
  | some e ↦
      let next = sm_next e.state event in
      (next, record m { table = set m.table i (record e { state = next }) })
]

unfoldable pub get_state : Negotiations → ℤ → NegState
unfolding slot
get_state m idx = elim (slot m idx) [ none ↦ initial | some e ↦ e.state ]

unfoldable pub get_consumer_pid : Negotiations → ℤ → Option Text
unfolding slot
get_consumer_pid m idx = elim (slot m idx) [ none ↦ none | some e ↦ some e.consumer_pid ]

unfoldable pub get_provider_pid : Negotiations → ℤ → Option Text
unfolding slot
get_provider_pid m idx = elim (slot m idx) [ none ↦ none | some e ↦ some e.provider_pid ]

abbrev pub has_cpid : Text → NegEntry → Bool
has_cpid cpid e = e.active && strncmp_eq pid_len e.consumer_pid cpid

pub find_by_cpid : Negotiations → Option Text → ℤ
find_by_cpid m none = negsuc 0
find_by_cpid m (some cpid) = index_or_minus_one (find_index (has_cpid cpid) m.table)

unfoldable pub count_active : Negotiations → ℕ
count_active m = count (λ e. e.active) m.table

unfoldable pub is_active : Negotiations → ℤ → Bool
is_active m (negsuc n) = false
is_active m (pos i) = elim (get_elem? m.table i) [ none ↦ false | some e ↦ e.active ]

unfoldable pub load_slot :
    Negotiations → ℤ → NegState → Option Text → Option Text → EspErr × Negotiations
load_slot m (negsuc n) s cpid ppid = (invalid_arg, m)
load_slot m (pos i) s none ppid = (invalid_arg, m)
load_slot m (pos i) s (some cpid) none = (invalid_arg, m)
load_slot m (pos i) s (some cpid) (some ppid) =
    if not (ltb i (length m.table))
    then (invalid_arg, m)
    else if not m.initialized
    then (invalid_state, m)
    else (ok, record m { table = set m.table i (record (fresh_entry cpid ppid) { state = s }) })
