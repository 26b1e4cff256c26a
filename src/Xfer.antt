-- ===== src/Xfer.antt =====
-- components/dsp_xfer/dsp_xfer.c and include/dsp_xfer.h: the state machine of a data transfer, the
-- slot table and the notification hook. As in Neg.antt, the table is a list of DSP_XFER_MAX entries.
-- The hook is a function of another component: the model keeps whether one is set and the list of
-- the slot indices with which it was called, the last call in front.
use dsp_embedded.Prelude.{
  ℕ, zero, suc, ◌≡◌, Bool, true, false, not, ◌&&◌, ◌||◌, Option, none, some, List, [], ◌∷◌, map,
  if◌then◌else◌, ltb, get_elem?, set, length, replicate, find_index, count, Text, strncpy_field,
  strncmp_eq, ℤ, pos, negsuc, index_or_minus_one,
}
use dsp_embedded.Esp.{EspErr, ok, invalid_arg, invalid_state}
pub mod Machine
pub mod Slots
pub mod Notify
mod Tests

-- `dsp_xfer_state_t`.
pub data XferState : Type 0 where
  initial transferring completed failed : XferState

-- `dsp_xfer_event_t`.
pub data XferEvent : Type 0 where
  start complete fail : XferEvent

unfoldable pub sm_next : XferState → XferEvent → XferState
sm_next initial start = transferring
sm_next initial _ = initial
sm_next transferring complete = completed
sm_next transferring fail = failed
sm_next transferring start = transferring
sm_next completed _ = completed
sm_next failed _ = failed

-- `dsp_xfer_entry_t`. The process ID is a `char[64]`.
pub record XferEntry : Type 0 where
  pub state : XferState
  pub process_id : Text
  pub active : Bool

-- `DSP_XFER_PID_LEN`.
abbrev pub pid_len : ℕ
pid_len = 64

abbrev pub zero_entry : XferEntry
zero_entry = record { state = initial; process_id = []; active = false }

-- The module's static state, `s_table`, `s_initialized` and `s_notify`, with the hook's calls.
pub record Transfers : Type 0 where
  pub table : List XferEntry
  pub initialized : Bool
  pub has_notify : Bool
  pub notified : List ℕ

abbrev pub boot : ℕ → Transfers
boot max = record {
  table = replicate max zero_entry;
  initialized = false;
  has_notify = false;
  notified = [];
}

abbrev pub wipe : List XferEntry → List XferEntry
wipe = map (λ e. zero_entry)

unfoldable pub init : Transfers → EspErr × Transfers
init x = (ok, if x.initialized then x else record x { table = wipe x.table; initialized = true })

unfoldable pub deinit : Transfers → Transfers
deinit x = record x { table = wipe x.table; initialized = false }

unfoldable is_initialized : Transfers → Bool
is_initialized x = x.initialized

-- The argument says whether the new hook is not NULL.
pub set_notify : Transfers → Bool → Transfers
set_notify x fn = record x { has_notify = fn }

abbrev pub is_free : XferEntry → Bool
is_free e = not e.active

abbrev pub fresh_entry : Text → XferEntry
fresh_entry pid = record { state = initial; process_id = strncpy_field pid_len pid; active = true }

pub create : Transfers → Option Text → ℤ × Transfers
create x none = (negsuc 0, x)
create x (some pid) = elim (find_index is_free x.table) [
  | none ↦ (negsuc 0, x)
  | some i ↦ (pos i, record x { table = set x.table i (fresh_entry pid) })
]

-- The guard that the accessors share: the entry at an index in range that is active.
unfoldable pub slot : Transfers → ℤ → Option XferEntry
slot x (negsuc n) = none
slot x (pos i) = elim (get_elem? x.table i) [
  | none ↦ none
  | some e ↦ if e.active then some e else none
]

abbrev pub is_transferring : XferState → Bool
is_transferring transferring = true
is_transferring _ = false

-- The hook is called on the actual transition into TRANSFERRING.
pub fire : Transfers → ℕ → XferState → XferState → Transfers
fire x i old new =
    if not (is_transferring old) && is_transferring new && x.has_notify
    then record x { notified = i ∷ x.notified }
    else x

pub apply : Transfers → ℤ → XferEvent → XferState × Transfers
unfolding slot fire
apply x (negsuc n) event = (initial, x)
apply x (pos i) event = elim (slot x (pos i)) [
  | none ↦ (initial, x)
  | some e ↦
      let next = sm_next e.state event in
      let written = record x { table = set x.table i (record e { state = next }) } in
      (next, fire written i e.state next)
]

unfoldable pub get_state : Transfers → ℤ → XferState
unfolding slot
get_state x idx = elim (slot x idx) [ none ↦ initial | some e ↦ e.state ]

unfoldable pub get_process_id : Transfers → ℤ → Option Text
unfolding slot
get_process_id x idx = elim (slot x idx) [ none ↦ none | some e ↦ some e.process_id ]

abbrev pub has_pid : Text → XferEntry → Bool
has_pid pid e = e.active && strncmp_eq pid_len e.process_id pid

pub find_by_pid : Transfers → Option Text → ℤ
find_by_pid x none = negsuc 0
find_by_pid x (some pid) = index_or_minus_one (find_index (has_pid pid) x.table)

unfoldable pub count_active : Transfers → ℕ
count_active x = count (λ e. e.active) x.table

unfoldable pub is_active : Transfers → ℤ → Bool
is_active x (negsuc n) = false
is_active x (pos i) = elim (get_elem? x.table i) [ none ↦ false | some e ↦ e.active ]

unfoldable pub load_slot : Transfers → ℤ → XferState → Option Text → EspErr × Transfers
load_slot x (negsuc n) s pid = (invalid_arg, x)
load_slot x (pos i) s none = (invalid_arg, x)
load_slot x (pos i) s (some pid) =
    if not (ltb i (length x.table))
    then (invalid_arg, x)
    else if not x.initialized
    then (invalid_state, x)
    else (ok, record x { table = set x.table i (record (fresh_entry pid) { state = s }) })
