-- ===== src/Neg/Lifecycle.antt =====
-- Histories of calls to dsp_neg: what every history keeps, and what becomes of a negotiation.
use dsp_embedded.Prelude.{
  ℕ, zero, suc, ◌<◌, ◌≡◌, refl, ap, subst, ◌∙◌, inl, inr, Bool, true, false, Option, none, some,
  List, [], ◌∷◌, arith, get_elem?, set, length, find_index, Option-cases, Bool-cases, Text, ℤ, pos,
  negsuc, length-set, length-take, replicate, length-map, length-replicate, ltb, sym, ◌⊎◌, not,
  if◌then◌else◌,
}
use dsp_embedded.Esp.{EspErr, ok, invalid_arg, invalid_state}
use dsp_embedded.Neg.{
  NegState, NegEvent, NegEntry, Negotiations, sm_next, fresh_entry, is_free, create, apply,
  load_slot, zero_entry, wipe, init, deinit, boot,
}
use dsp_embedded.Neg.Slots.{Applies, missing, moves, apply-Applies}
use dsp_embedded.Neg.Refine.{
  IsPacked, IsPacked-of_none, active_in, create_refines, set-IsPacked, fill-IsPacked,
}

-- The calls that change the table.
pub data NegCall : Type 0 where
  initializes resets : NegCall
  creates : Option Text → Option Text → NegCall
  applies : ℤ → NegEvent → NegCall
  loads : ℤ → NegState → Option Text → Option Text → NegCall

unfoldable pub step : Negotiations → NegCall → Negotiations
step m initializes = (init m).1
step m resets = deinit m
step m (creates cpid ppid) = (create m cpid ppid).1
step m (applies idx event) = (apply m idx event).1
step m (loads idx s cpid ppid) = (load_slot m idx s cpid ppid).1

unfoldable pub run : Negotiations → List NegCall → Negotiations
run m [] = m
run m (c ∷ cs) = run (step m c) cs

-- The PIDs leave room for the NUL of their 64-byte fields.
abbrev pub Fits : NegEntry → Type 0
Fits e = (length e.consumer_pid < 64) × (length e.provider_pid < 64)

abbrev pub AllFit : List NegEntry → Type 0
AllFit [] = Unit {0}
AllFit (e ∷ t) = Fits e × AllFit t

set-AllFit : (t : List NegEntry) (i : ℕ) (e : NegEntry) → Fits e → AllFit t → AllFit (set t i e)
set-AllFit [] i e f h = tt
set-AllFit (x ∷ t) zero e f h = (f, h.1)
set-AllFit (x ∷ t) (suc i) e f h = (h.0, set-AllFit t i e f h.1)

pub get_elem?-Fits :
    (t : List NegEntry) (i : ℕ) (e : NegEntry) → AllFit t → get_elem? t i ≡ some e → Fits e
get_elem?-Fits [] i e h g = absurd (cc)
get_elem?-Fits (x ∷ t) zero e h g = ground arith
get_elem?-Fits (x ∷ t) (suc i) e h g = get_elem?-Fits t i e h.1 g

fresh_entry-Fits : (cpid ppid : Text) → Fits (fresh_entry cpid ppid)
fresh_entry-Fits cpid ppid = omega (arith, length-take 63 cpid, length-take 63 ppid)

active_in-wipe : (t : List NegEntry) → active_in (wipe t) ≡ 0
active_in-wipe [] = refl
active_in-wipe (e ∷ t) = active_in-wipe t

wipe-AllFit : (t : List NegEntry) → AllFit (wipe t)
wipe-AllFit [] = tt
wipe-AllFit (e ∷ t) = ((omega arith, omega arith), wipe-AllFit t)

-- The representation invariant of the slot table.
pub record IsValid (max : ℕ) (m : Negotiations) : Type 0 where
  pub sized : length m.table ≡ max
  pub packed : IsPacked m.table
  pub fit : AllFit m.table

wiped-IsValid :
    (max : ℕ) (t : List NegEntry) (b : Bool)
    → length t ≡ max
    → IsValid max (record { table = wipe t; initialized = b })
wiped-IsValid max t b h = record {
  sized = length-map (λ e. zero_entry) t ∙ h;
  packed = IsPacked-of_none (wipe t) (active_in-wipe t);
  fit = wipe-AllFit t;
}

pub create-IsValid :
    {max : ℕ} {m : Negotiations} (cpid ppid : Option Text)
    → IsValid max m
    → IsValid max (create m cpid ppid).1
unfolding create
create-IsValid none ppid v = v
create-IsValid (some c) none v = v
create-IsValid {m = m} (some c) (some p) v = elim (Option-cases (find_index is_free m.table)) [
  | inl n ↦ rw (n, create) v
  | inr (i, q) ↦
      let ref = create_refines m c p v.packed in
      record {
        sized = rw (q, create) (length-set m.table i (fresh_entry c p) ∙ v.sized);
        packed = ref.2;
        fit = rw (q, create) (set-AllFit m.table i (fresh_entry c p) (fresh_entry-Fits c p) v.fit);
      }
]

-- One step of the machine on a slot in use.
applied-IsValid :
    {max : ℕ} {m : Negotiations} (i : ℕ) (event : NegEvent) {r : NegState × Negotiations}
    → Applies m i event r
    → IsValid max m
    → IsValid max r.1
applied-IsValid i event (missing n) v = v
applied-IsValid {m = m} i event (moves e g busy) v =
    let e' : NegEntry = record e { state = sm_next e.state event } in
    record {
      sized = length-set m.table i e' ∙ v.sized;
      packed = set-IsPacked m.table i e e' g refl v.packed;
      fit = set-AllFit m.table i e' (get_elem?-Fits m.table i e v.fit g) v.fit;
    }

pub apply-IsValid :
    {max : ℕ} {m : Negotiations} (idx : ℤ) (event : NegEvent)
    → IsValid max m
    → IsValid max (apply m idx event).1
unfolding apply
apply-IsValid (negsuc n) event v = v
apply-IsValid {m = m} (pos i) event v = applied-IsValid i event (apply-Applies m i event) v

pub init-IsValid : {max : ℕ} {m : Negotiations} → IsValid max m → IsValid max (init m).1
unfolding init
init-IsValid {max = max} {m = m} v = elim (Bool-cases m.initialized) [
  | inl e ↦ simp (e, init) v
  | inr e ↦ rw (e, init) (wiped-IsValid max m.table true v.sized)
]

-- An index at which a load leaves no free slot in front of one in use.
abbrev pub IsNext : Negotiations → ℤ → Type 0
IsNext m (negsuc n) = Unit {0}
IsNext m (pos i) =
    ((e : NegEntry) × (get_elem? m.table i ≡ some e) × (e.active ≡ true))
    ⊎ (find_index is_free m.table ≡ some i)

loaded-IsValid :
    {max : ℕ} {m : Negotiations} (i : ℕ) (s : NegState) (c p : Text)
    → IsNext m (pos i)
    → IsValid max m
    → IsValid max (record m { table = set m.table i (record (fresh_entry c p) { state = s }) })
loaded-IsValid {m = m} i s c p next v =
    let e : NegEntry = record (fresh_entry c p) { state = s } in
    record {
      sized = length-set m.table i e ∙ v.sized;
      packed = elim next [
        | inl (old, at, busy) ↦ set-IsPacked m.table i old e at (sym busy) v.packed
        | inr free ↦ fill-IsPacked m.table i e free refl v.packed
      ];
      fit = set-AllFit m.table i e (fresh_entry-Fits c p) v.fit;
    }

after_guards :
    (m m' : Negotiations) (a b : Bool) (x y z : EspErr)
    → let r : EspErr × Negotiations = if a then (x, m) else if b then (y, m) else (z, m') in
      (r.1 ≡ m) ⊎ (r.1 ≡ m')
after_guards m m' true b x y z = inl refl
after_guards m m' false true x y z = inl refl
after_guards m m' false false x y z = inr refl

-- A load changes nothing or writes the whole entry.
pub load_slot_cases :
    (m : Negotiations) (i : ℕ) (s : NegState) (c p : Text)
    → let m' : Negotiations = record m {
      table = set m.table i (record (fresh_entry c p) { state = s });
    } in
      ((load_slot m (pos i) s (some c) (some p)).1 ≡ m)
      ⊎ ((load_slot m (pos i) s (some c) (some p)).1 ≡ m')
unfolding load_slot
load_slot_cases m i s c p =
    after_guards m (record m { table = set m.table i (record (fresh_entry c p) { state = s }) })
      (not (ltb i (length m.table))) (not m.initialized) invalid_arg invalid_state ok

load_slot-IsValid :
    {max : ℕ} {m : Negotiations} (idx : ℤ) (s : NegState) (cpid ppid : Option Text)
    → IsNext m idx
    → IsValid max m
    → IsValid max (load_slot m idx s cpid ppid).1
unfolding load_slot
load_slot-IsValid (negsuc n) s cpid ppid next v = v
load_slot-IsValid (pos i) s none ppid next v = v
load_slot-IsValid (pos i) s (some c) none next v = v
load_slot-IsValid {max = max} {m = m} (pos i) s (some c) (some p) next v =
    elim (load_slot_cases m i s c p) [
      | inl same ↦ subst (IsValid max) (sym same) v
      | inr new ↦ subst (IsValid max) (sym new) (loaded-IsValid i s c p next v)
    ]

abbrev pub IsOrderly : Negotiations → NegCall → Type 0
IsOrderly m (loads idx s cpid ppid) = IsNext m idx
IsOrderly m _ = Unit {0}

-- Every load goes to a slot in use or to the first free one, at the time of the call.
abbrev pub AllOrderly : Negotiations → List NegCall → Type 0
AllOrderly m [] = Unit {0}
AllOrderly m (c ∷ cs) = IsOrderly m c × AllOrderly (step m c) cs

step-IsValid :
    {max : ℕ} {m : Negotiations} (c : NegCall)
    → IsOrderly m c
    → IsValid max m
    → IsValid max (step m c)
unfolding step deinit
step-IsValid initializes o v = init-IsValid v
step-IsValid {max = max} {m = m} resets o v = wiped-IsValid max m.table false v.sized
step-IsValid (creates cpid ppid) o v = create-IsValid cpid ppid v
step-IsValid (applies idx event) o v = apply-IsValid idx event v
step-IsValid (loads idx s cpid ppid) o v = load_slot-IsValid idx s cpid ppid o v

wipe-replicate : (n : ℕ) → wipe (replicate n zero_entry) ≡ replicate n zero_entry
wipe-replicate zero = refl
wipe-replicate (suc n) = ap (◌∷◌ zero_entry) (wipe-replicate n)

pub boot-IsValid : (max : ℕ) → IsValid max (boot max)
boot-IsValid max =
    subst (λ t. IsValid max (record { table = t; initialized = false })) (wipe-replicate max)
      (wiped-IsValid max (replicate max zero_entry) false (length-replicate max zero_entry))

run-IsValid :
    {max : ℕ} (cs : List NegCall) {m : Negotiations}
    → AllOrderly m cs
    → IsValid max m
    → IsValid max (run m cs)
unfolding run
run-IsValid [] o v = v
run-IsValid (c ∷ cs) o v = run-IsValid cs o.1 (step-IsValid c o.0 v)

-- From boot, after any calls in which every dsp_neg_load_slot goes to a slot in use or to the first
-- free one, the table has its DSP_NEG_MAX slots, those in use stand before the free ones, and every
-- PID fits its field with its NUL.
pub run-boot-IsValid :
    (max : ℕ) (cs : List NegCall) → AllOrderly (boot max) cs → IsValid max (run (boot max) cs)
run-boot-IsValid max cs o = run-IsValid cs o (boot-IsValid max)
