-- ===== src/Xfer/Slots.antt =====
-- The slot table of dsp_xfer.c: what its operations find, write and leave alone.
use dsp_embedded.Prelude.{
  ℕ, ◌≡◌, ◌≢◌, refl, ap, ◌∙◌, get_elem?-lt, get_elem?-set_self, sym, subst, Bool, true, false, not,
  none, some, List, [], ◌∷◌, arith, get_elem?, set, length, find_index, count, find_index-some,
  Option-cases, Bool-cases, Text, ℤ, pos, negsuc,
}
use mathlib.Core.Logic.{inl, inr}
use dsp_embedded.Xfer.{
  XferState, initial, XferEvent, XferEntry, Transfers, sm_next, fresh_entry, is_free, create, slot,
  apply, fire, count_active,
}

-- What `dsp_xfer_create` does: it fails and changes nothing where every slot is taken, or it takes
-- a free slot, and leaves the other slots and the hook alone.
pub data Creates (x : Transfers) (f : XferEntry) : ℤ × Transfers → Type 0 where
  full : count_active x ≡ length x.table → Creates x f (negsuc 0, x)
  takes :
      (i : ℕ) (old : XferEntry)
      → get_elem? x.table i ≡ some old
      → old.active ≡ false
      → Creates x f (pos i, record x { table = set x.table i f })

count-full : (t : List XferEntry) → find_index is_free t ≡ none → count (λ e. e.active) t ≡ length t
count-full [] h = refl
count-full (e ∷ t) h = elim (Option-cases (find_index is_free t)) [
  | inl n ↦ ground (arith, count-full t n)
  | inr (k, q) ↦ absurd (ground arith)
]

not-true : (b : Bool) → not b ≡ true → b ≡ false
not-true b h = ground arith

pub create-Creates :
    (x : Transfers) (pid : Text) → Creates x (fresh_entry pid) (create x (some pid))
unfolding create count_active
create-Creates x pid = elim (Option-cases (find_index is_free x.table)) [
  | inl n ↦ rw (n, create) (full (count-full x.table n))
  | inr (i, q) ↦
      let (old, at, free) = find_index-some is_free x.table i q in
      rw (q, create) (takes i old at (not-true old.active free))
]

-- One step of the machine on entry `e` in slot `i`.
abbrev pub moved : Transfers → ℕ → XferEvent → XferEntry → XferState × Transfers
moved x i event e =
    let next = sm_next e.state event in
    (next, fire (record x { table = set x.table i (record e { state = next }) }) i e.state next)

-- What `dsp_xfer_apply` does at an index that is not negative.
pub data Applies (x : Transfers) (i : ℕ) (event : XferEvent) : XferState × Transfers → Type 0 where
  missing : slot x (pos i) ≡ none → Applies x i event (initial, x)
  moves :
      (e : XferEntry)
      → get_elem? x.table i ≡ some e
      → e.active ≡ true
      → Applies x i event (moved x i event e)

slot-none_of_none : (x : Transfers) (i : ℕ) → get_elem? x.table i ≡ none → slot x (pos i) ≡ none
unfolding slot
slot-none_of_none x i g = ground arith

slot-none-idle :
    (x : Transfers) (i : ℕ) (e : XferEntry)
    → get_elem? x.table i ≡ some e
    → e.active ≡ false
    → slot x (pos i) ≡ none
unfolding slot
slot-none-idle x i e g a = ground arith

slot-some :
    (x : Transfers) (i : ℕ) (e : XferEntry)
    → get_elem? x.table i ≡ some e
    → e.active ≡ true
    → slot x (pos i) ≡ some e
unfolding slot
slot-some x i e g a = ground arith

apply-missing :
    (x : Transfers) (i : ℕ) (event : XferEvent)
    → slot x (pos i) ≡ none
    → apply x (pos i) event ≡ (initial, x)
unfolding apply
apply-missing x i event h = rw (h, apply)

pub apply-at :
    (x : Transfers) (i : ℕ) (event : XferEvent) (e : XferEntry)
    → get_elem? x.table i ≡ some e
    → e.active ≡ true
    → apply x (pos i) event ≡ moved x i event e
unfolding apply
apply-at x i event e g a = rw (slot-some x i e g a, apply)

pub apply-Applies :
    (x : Transfers) (i : ℕ) (event : XferEvent) → Applies x i event (apply x (pos i) event)
apply-Applies x i event = elim (Option-cases (get_elem? x.table i)) [
  | inl n ↦ let h = slot-none_of_none x i n in rw (apply-missing x i event h) (missing h)
  | inr (e, g) ↦ elim (Bool-cases e.active) [
    | inl busy ↦ subst (Applies x i event) (sym (apply-at x i event e g busy)) (moves e g busy)
    | inr idle ↦
        let h = slot-none-idle x i e g idle in
        subst (Applies x i event) (sym (apply-missing x i event h)) (missing h)
  ]
]

-- The hook leaves the table alone.
pub fire_table : (x : Transfers) (i : ℕ) (old new : XferState) → (fire x i old new).table ≡ x.table
unfolding fire
fire_table x i old new = ground arith

-- What `dsp_xfer_create` returned is an index, with the new entry there.
abbrev pub TakenBy : ℤ × Transfers → XferEntry → Type 0
TakenBy (negsuc n, x) e = ⊥
TakenBy (pos i, x) e = get_elem? x.table i ≡ some e

pub Creates-TakenBy :
    {x : Transfers} {f : XferEntry} {r : ℤ × Transfers}
    → count_active x ≢ length x.table
    → Creates x f r
    → TakenBy r f
Creates-TakenBy room (full n) = absurd (room n)
Creates-TakenBy {x = x} {f = f} room (takes i old at free) =
    get_elem?-set_self x.table i f (get_elem?-lt x.table i at)

-- An event leaves the entry of its slot in the next state.
pub apply-there :
    (x : Transfers) (i : ℕ) (event : XferEvent) (e : XferEntry)
    → get_elem? x.table i ≡ some e
    → e.active ≡ true
    → get_elem? (apply x (pos i) event).1.table i
      ≡ some (record e { state = sm_next e.state event })
apply-there x i event e g a =
    let next = sm_next e.state event in
    let e' : XferEntry = record e { state = next } in
    ap (λ r. get_elem? r.1.table i) (apply-at x i event e g a)
    ∙ ap (λ t. get_elem? t i) (fire_table (record x { table = set x.table i e' }) i e.state next)
    ∙ get_elem?-set_self x.table i e' (get_elem?-lt x.table i g)
