-- ===== src/Neg/Refine.antt =====
-- The slot table of dsp_neg.c and the ledger of Neg/Ledger.antt.
use dsp_embedded.Prelude.{
  ℕ, zero, suc, ◌≡◌, refl, ◌⊎◌, inl, inr, true, false, none, some, List, [], ◌∷◌, ◌++◌, arith,
  if◌then◌else◌, get_elem?, set, length, find_index, count, find_index-some, Option-cases,
  Bool-cases, Text, count-set_same, &&-true, length-set, find_index-cons, get_elem?-lt,
}
use dsp_embedded.Neg.{
  NegEvent, NegEntry, Negotiations, sm_next, fresh_entry, is_free, has_cpid, create, slot, apply,
  get_state, find_by_cpid,
}
use mathlib.Core.Option
use dsp_embedded.Neg.Slots.{count-full}
use dsp_embedded.Neg.Ledger.{Ledger, request, state_of, notify, state_or_initial}

-- The negotiations that a table holds, in slot order.
abbrev pub contents : List NegEntry → Ledger
contents [] = []
contents (e ∷ t) = if e.active then e ∷ contents t else contents t

abbrev pub active_in : List NegEntry → ℕ
active_in = count (λ e. e.active)

-- No slot in use stands behind a free one.
abbrev pub IsPacked : List NegEntry → Type 0
IsPacked [] = Unit {0}
IsPacked (e ∷ t) = ((e.active ≡ true) × IsPacked t) ⊎ ((e.active ≡ false) × (active_in t ≡ 0))

pub IsPacked-of_none : (t : List NegEntry) → active_in t ≡ 0 → IsPacked t
IsPacked-of_none [] h = tt
IsPacked-of_none (e ∷ t) h = ground arith

pub contents_of_none : (t : List NegEntry) → active_in t ≡ 0 → contents t ≡ []
contents_of_none [] h = refl
contents_of_none (e ∷ t) h = ground (arith, contents_of_none t)

pub length-contents : (t : List NegEntry) → length (contents t) ≡ active_in t
length-contents [] = refl
length-contents (e ∷ t) = ground (arith, length-contents t)

-- A write into the first free slot of a packed table.
record Appends (t : List NegEntry) (i : ℕ) (e : NegEntry) : Type 0 where
  added : contents (set t i e) ≡ contents t ++ (e ∷ [])
  packed : IsPacked (set t i e)
  at_end : i ≡ length (contents t)

set-Appends :
    (t : List NegEntry) (i : ℕ) (e : NegEntry)
    → e.active ≡ true
    → IsPacked t
    → find_index is_free t ≡ some i
    → Appends t i e
set-Appends [] i e a p f = absurd (cc)
set-Appends (x ∷ t) i e a (inr (free, rest)) f =
    ground (arith, contents_of_none t rest, IsPacked-of_none t rest)
set-Appends (x ∷ t) i e a (inl (busy, p)) f =
    let (k, q, at) = find_index-cons is_free x t i f (ground arith) in
    let r = set-Appends t k e a p q in
    record {
      added = ground (arith, r.added, at);
      packed = rw at (inl (busy, r.packed));
      at_end = ground (arith, r.at_end, at);
    }

-- `dsp_neg_create` on a packed table is the ledger's request: it answers the new negotiation's place
-- or -1, and the table stays packed.
pub create_refines :
    (m : Negotiations) (cpid ppid : Text)
    → IsPacked m.table
    → let (idx, m') = create m (some cpid) (some ppid) in
      let spec = request (length m.table) (contents m.table) cpid ppid in
      (idx ≡ spec.0) × (contents m'.table ≡ spec.1) × IsPacked m'.table
unfolding create request
create_refines m cpid ppid p = elim (Option-cases (find_index is_free m.table)) [
  | inl n ↦ rw (n, create) (ground (arith, count-full m.table n, length-contents m.table))
  | inr (i, q) ↦
      let r = set-Appends m.table i (fresh_entry cpid ppid) refl p q in
      let (old, at, free) = find_index-some is_free m.table i q in
      rw (q, create) (ground (arith, r.added, r.packed, r.at_end, get_elem?-lt m.table i at))
]

state_of-none :
    (t : List NegEntry) (cpid : Text)
    → find_index (has_cpid cpid) t ≡ none
    → state_of (contents t) cpid ≡ none
unfolding state_of
state_of-none [] cpid h = refl
state_of-none (x ∷ t) cpid h = elim (Option-cases (find_index (has_cpid cpid) t)) [
  | inl n ↦ ground (arith, state_of-none t cpid n)
  | inr (k, q) ↦ absurd (ground arith)
]

state_of-some :
    (t : List NegEntry) (cpid : Text) (i : ℕ) (e : NegEntry)
    → find_index (has_cpid cpid) t ≡ some i
    → get_elem? t i ≡ some e
    → state_of (contents t) cpid ≡ some e.state
unfolding state_of
state_of-some [] cpid i e h g = absurd (cc)
state_of-some (x ∷ t) cpid i e h g = elim (Bool-cases (has_cpid cpid x)) [
  | inl hit ↦ ground arith
  | inr miss ↦
      let (k, q, at) = find_index-cons (has_cpid cpid) x t i h miss in
      let ih = state_of-some t cpid k e q (rw at at g) in ground arith
]

notify-none :
    (t : List NegEntry) (cpid : Text) (event : NegEvent)
    → find_index (has_cpid cpid) t ≡ none
    → notify (contents t) cpid event ≡ contents t
unfolding notify
notify-none [] cpid event h = refl
notify-none (x ∷ t) cpid event h = elim (Option-cases (find_index (has_cpid cpid) t)) [
  | inl n ↦ ground (arith, notify-none t cpid event n)
  | inr (k, q) ↦ absurd (ground arith)
]

notify-some :
    (t : List NegEntry) (cpid : Text) (event : NegEvent) (i : ℕ) (e : NegEntry)
    → find_index (has_cpid cpid) t ≡ some i
    → get_elem? t i ≡ some e
    → contents (set t i (record e { state = sm_next e.state event }))
      ≡ notify (contents t) cpid event
unfolding notify
notify-some [] cpid event i e h g = absurd (cc)
notify-some (x ∷ t) cpid event i e h g = elim (Bool-cases (has_cpid cpid x)) [
  | inl hit ↦ ground arith
  | inr miss ↦
      let (k, q, at) = find_index-cons (has_cpid cpid) x t i h miss in
      let ih = notify-some t cpid event k e q (rw at at g) in ground arith
]

-- To change an entry but not whether it is in use keeps a table packed.
pub fill-IsPacked :
    (t : List NegEntry) (i : ℕ) (e : NegEntry)
    → find_index is_free t ≡ some i
    → e.active ≡ true
    → IsPacked t
    → IsPacked (set t i e)
fill-IsPacked t i e f a p = (set-Appends t i e a p f).packed

pub set-IsPacked :
    (t : List NegEntry) (i : ℕ) (e e' : NegEntry)
    → get_elem? t i ≡ some e
    → e'.active ≡ e.active
    → IsPacked t
    → IsPacked (set t i e')
set-IsPacked [] i e e' g a p = p
set-IsPacked (x ∷ t) zero e e' g a p = ground arith
set-IsPacked (x ∷ t) (suc i) e e' g a (inl (busy, p)) = inl (busy, set-IsPacked t i e e' g a p)
set-IsPacked (x ∷ t) (suc i) e e' g a (inr (free, rest)) =
    inr (free, ground (arith, count-set_same (λ e. e.active) t i e' g a))

-- `dsp_neg_get_state` of the slot that `dsp_neg_find_by_cpid` returns is the state that the ledger
-- has for the consumer PID, and INITIAL for an unknown one.
get_state-find_by_cpid :
    (m : Negotiations) (cpid : Text)
    → get_state m (find_by_cpid m (some cpid)) ≡ state_or_initial (state_of (contents m.table) cpid)
unfolding get_state slot find_by_cpid
get_state-find_by_cpid m cpid = elim (Option-cases (find_index (has_cpid cpid) m.table)) [
  | inl n ↦ rw (n, state_of-none m.table cpid n)
  | inr (i, q) ↦
      let (e, at, hit) = find_index-some (has_cpid cpid) m.table i q in
      rw (q, state_of-some m.table cpid i e q at) (ground (arith, &&-true e.active))
]

-- `dsp_neg_apply` at the slot that `dsp_neg_find_by_cpid` returns is the ledger's event: it moves the
-- oldest negotiation of the consumer PID, returns its new state (INITIAL for an unknown PID), and
-- keeps the table packed and its length.
pub event_refines :
    (m : Negotiations) (cpid : Text) (event : NegEvent)
    → IsPacked m.table
    → let (s, m') = apply m (find_by_cpid m (some cpid)) event in
      let l = contents m.table in
      (s ≡ state_or_initial (Option.map (λ t. sm_next t event) (state_of l cpid)))
      × (contents m'.table ≡ notify l cpid event)
      × IsPacked m'.table
      × (length m'.table ≡ length m.table)
unfolding apply slot find_by_cpid
event_refines m cpid event p = elim (Option-cases (find_index (has_cpid cpid) m.table)) [
  | inl n ↦
      rw (n, state_of-none m.table cpid n, notify-none m.table cpid event n) (refl, refl, p, refl)
  | inr (i, q) ↦
      let (e, at, hit) = find_index-some (has_cpid cpid) m.table i q in
      let e' : NegEntry = record e { state = sm_next e.state event } in
      rw (q, state_of-some m.table cpid i e q at)
        (ground (
          arith,
          &&-true e.active,
          notify-some m.table cpid event i e q at,
          set-IsPacked m.table i e e' at refl p,
          length-set m.table i e',
        ))
]
