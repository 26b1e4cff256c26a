-- ===== src/Neg/Slots.antt =====
-- The slot table of dsp_neg.c by itself: what its operations find, write and leave alone.
use dsp_embedded.Prelude.{
  ℕ, ◌<◌, ◌≡◌, refl, sym, subst, inl, inr, Bool, true, false, not, none, some, List, [], ◌∷◌, arith,
  get_elem?, set, length, find_index, count, find_index-some, find_index-first, Option-cases,
  Bool-cases, Text, ℤ, pos, negsuc,
}
use dsp_embedded.Neg.{
  NegState, initial, NegEvent, NegEntry, Negotiations, sm_next, fresh_entry, is_free, create, slot,
  apply, count_active,
}

-- What `dsp_neg_create` does: it fails and changes nothing where every slot is taken, or it takes
-- the first free slot, and leaves the other slots alone.
pub data Creates (m : Negotiations) (e : NegEntry) : ℤ × Negotiations → Type 0 where
  full : count_active m ≡ length m.table → Creates m e (negsuc 0, m)
  takes :
      (i : ℕ) (old : NegEntry)
      → get_elem? m.table i ≡ some old
      → old.active ≡ false
      → ((j : ℕ) (x : NegEntry) → j < i → get_elem? m.table j ≡ some x → x.active ≡ true)
      → Creates m e (pos i, record m { table = set m.table i e })

not-false : (b : Bool) → not b ≡ false → b ≡ true
not-false b h = ground arith

not-true : (b : Bool) → not b ≡ true → b ≡ false
not-true b h = ground arith

pub count-full :
    (t : List NegEntry) → find_index is_free t ≡ none → count (λ e. e.active) t ≡ length t
count-full [] h = refl
count-full (e ∷ t) h = elim (Option-cases (find_index is_free t)) [
  | inl n ↦ ground (arith, count-full t n)
  | inr (k, q) ↦ absurd (ground arith)
]

-- `dsp_neg_create` with two PIDs takes the first free slot for a REQUESTED negotiation of these
-- PIDs, or returns -1 and changes nothing if every slot is taken.
pub create-Creates :
    (m : Negotiations) (cpid ppid : Text)
    → Creates m (fresh_entry cpid ppid) (create m (some cpid) (some ppid))
unfolding create count_active
create-Creates m cpid ppid = elim (Option-cases (find_index is_free m.table)) [
  | inl e ↦ rw (e, create) (full (count-full m.table e))
  | inr (i, e) ↦
      let (old, at, free) = find_index-some is_free m.table i e in
      rw (e, create)
        (takes i old at (not-true old.active free)
          (λ j x lt g. not-false x.active (find_index-first is_free m.table i j e lt g)))
]

-- What `dsp_neg_apply` does at an index that is not negative: nothing where the slot is out of range
-- or free, or one step of the state machine on the entry there.
pub data Applies (m : Negotiations) (i : ℕ) (event : NegEvent)
    : NegState × Negotiations → Type 0 where
  missing : slot m (pos i) ≡ none → Applies m i event (initial, m)
  moves :
      (e : NegEntry)
      → get_elem? m.table i ≡ some e
      → e.active ≡ true
      → Applies m i event (
        sm_next e.state event,
        record m { table = set m.table i (record e { state = sm_next e.state event }) },
      )

slot-none-idle :
    (m : Negotiations) (i : ℕ) (e : NegEntry)
    → get_elem? m.table i ≡ some e
    → e.active ≡ false
    → slot m (pos i) ≡ none
unfolding slot
slot-none-idle m i e g a = ground arith

apply-missing :
    (m : Negotiations) (i : ℕ) (event : NegEvent)
    → slot m (pos i) ≡ none
    → apply m (pos i) event ≡ (initial, m)
unfolding apply
apply-missing m i event h = ground arith

pub apply-at :
    (m : Negotiations) (i : ℕ) (event : NegEvent) (e : NegEntry)
    → get_elem? m.table i ≡ some e
    → e.active ≡ true
    → apply m (pos i) event ≡ (
      sm_next e.state event,
      record m { table = set m.table i (record e { state = sm_next e.state event }) },
    )
unfolding apply
apply-at m i event e g a = ground arith

pub apply-Applies :
    (m : Negotiations) (i : ℕ) (event : NegEvent) → Applies m i event (apply m (pos i) event)
unfolding slot
apply-Applies m i event = elim (Option-cases (get_elem? m.table i)) [
  | inl n ↦
      let h : slot m (pos i) ≡ none = ground arith in rw (apply-missing m i event h) (missing h)
  | inr (e, g) ↦ elim (Bool-cases e.active) [
    | inl busy ↦ subst (Applies m i event) (sym (apply-at m i event e g busy)) (moves e g busy)
    | inr idle ↦
        let h = slot-none-idle m i e g idle in
        subst (Applies m i event) (sym (apply-missing m i event h)) (missing h)
  ]
]
