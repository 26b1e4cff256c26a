-- ===== src/Neg/Ledger.antt =====
-- What dsp_neg promises a client: a ledger of negotiations in the order of their creation, of a
-- limited length, in which a negotiation is found by its consumer PID. Slots, indices and free
-- entries are gone; Neg/Refine.antt relates the slot table to it.
use dsp_embedded.Prelude.{
  ℕ, Bool, Option, none, some, List, [], ◌∷◌, ◌++◌, if◌then◌else◌, ltb, length, Text, strncmp_eq, ℤ,
  pos, negsuc,
}
use dsp_embedded.Neg.{NegState, initial, NegEvent, NegEntry, sm_next, pid_len, fresh_entry}

abbrev pub Ledger : Type 0
Ledger = List NegEntry

abbrev pub is_named : Text → NegEntry → Bool
is_named cpid e = strncmp_eq pid_len e.consumer_pid cpid

-- A new negotiation goes to the end, and is known by its place, or is refused for want of room.
unfoldable pub request : ℕ → Ledger → Text → Text → ℤ × Ledger
request max l cpid ppid =
    if ltb (length l) max
    then (pos (length l), l ++ (fresh_entry cpid ppid ∷ []))
    else (negsuc 0, l)

-- The state of the oldest negotiation of a consumer PID.
unfoldable pub state_of : Ledger → Text → Option NegState
state_of [] cpid = none
state_of (e ∷ l) cpid = if is_named cpid e then some e.state else state_of l cpid

-- An event reaches the oldest negotiation of that consumer PID, and no other.
unfoldable pub notify : Ledger → Text → NegEvent → Ledger
notify [] cpid event = []
notify (e ∷ l) cpid event =
    if is_named cpid e
    then record e { state = sm_next e.state event } ∷ l
    else e ∷ notify l cpid event

-- The accessors answer INITIAL for a PID that is not known.
abbrev pub state_or_initial : Option NegState → NegState
state_or_initial none = initial
state_or_initial (some s) = s
