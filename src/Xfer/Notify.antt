-- ===== src/Xfer/Notify.antt =====
-- The notification hook over a history of calls to dsp_xfer.
use dsp_embedded.Prelude.{
  ℕ, zero, suc, ◌+◌, ◌<◌, ◌≡◌, refl, sym, ap, ◌∙◌, subst, Bool, true, false, not, ◌&&◌, Option,
  none, some, List, [], ◌∷◌, arith, get_elem?, set, count, Text, ℤ, pos, negsuc, ◌==◌,
  if◌then◌else◌, Bool-cases, inl, inr, replicate,
}
use mathlib.Core.Option.{some-injective}
use dsp_embedded.Xfer.{
  XferState, initial, XferEvent, XferEntry, Transfers, sm_next, fresh_entry, create, apply, fire,
  is_transferring, zero_entry, init, set_notify, boot, wipe,
}
use dsp_embedded.Xfer.Slots.{
  Creates, full, takes, create-Creates, Applies, missing, moves, apply-Applies, moved,
}

-- What a client does between two resets, once the module is up and a hook is set.
pub data XferCall : Type 0 where
  creates : Option Text → XferCall
  applies : ℤ → XferEvent → XferCall

unfoldable pub step : Transfers → XferCall → Transfers
step x (creates pid) = (create x pid).1
step x (applies idx event) = (apply x idx event).1

unfoldable pub run : Transfers → List XferCall → Transfers
run x [] = x
run x (c ∷ cs) = run (step x c) cs

-- The module with `max` empty slots, initialised, with a hook.
abbrev pub ready : ℕ → Transfers
ready max = set_notify (init (boot max)).1 true

-- How often the hook was called for slot `i`.
abbrev pub times : ℕ → List ℕ → ℕ
times i = count (λ j. j == i)

abbrev pub has_started : XferState → Bool
has_started initial = false
has_started _ = true

-- One call if the slot holds a transfer that was started, and none otherwise.
abbrev pub due : XferEntry → ℕ
due e = if e.active && has_started e.state then 1 else 0

-- The slots from index `k` on have been told of as often as is due.
abbrev pub Told : List ℕ → ℕ → List XferEntry → Type 0
Told ns k [] = Unit {0}
Told ns k (e ∷ t) = (times k ns ≡ due e) × Told ns (suc k) t

Told-cons : (ns : List ℕ) (n k : ℕ) (t : List XferEntry) → n < k → Told ns k t → Told (n ∷ ns) k t
Told-cons ns n k [] h b = tt
Told-cons ns n k (e ∷ t) h b = (ground (arith, b.0), Told-cons ns n (suc k) t (omega arith) b.1)

-- A write that changes nothing of what is due.
Told-set :
    (ns : List ℕ) (k : ℕ) (t : List XferEntry) (i : ℕ) (e e' : XferEntry)
    → get_elem? t i ≡ some e
    → due e' ≡ due e
    → Told ns k t
    → Told ns k (set t i e')
Told-set ns k [] i e e' g d b = tt
Told-set ns k (y ∷ t) zero e e' g d b = (b.0 ∙ ap due (some-injective y e g) ∙ sym d, b.1)
Told-set ns k (y ∷ t) (suc i) e e' g d b = (b.0, Told-set ns (suc k) t i e e' g d b.1)

-- A write that makes one call due, with that call.
Told-start :
    (ns : List ℕ) (k : ℕ) (t : List XferEntry) (i : ℕ) (e e' : XferEntry)
    → get_elem? t i ≡ some e
    → due e ≡ 0
    → due e' ≡ 1
    → Told ns k t
    → Told ((k + i) ∷ ns) k (set t i e')
Told-start ns k [] i e e' g d d' b = tt
Told-start ns k (y ∷ t) zero e e' g d d' b = (
  omega (arith, b.0 ∙ ap due (some-injective y e g), d, d', ap_times),
  Told-cons ns (k + 0) (suc k) t (omega arith) b.1,
)
  where
    ap_times : times k ((k + 0) ∷ ns) ≡ suc (times k ns)
    ap_times = ground arith
Told-start ns k (y ∷ t) (suc i) e e' g d d' b = (
  ground (arith, b.0),
  subst (λ n. Told (n ∷ ns) (suc k) (set t i e')) (omega arith)
      (Told-start ns (suc k) t i e e' g d d' b.1),
)

Told-wiped : (k : ℕ) (t : List XferEntry) → Told [] k (wipe t)
Told-wiped k [] = tt
Told-wiped k (e ∷ t) = (refl, Told-wiped (suc k) t)

pub record IsTold (x : Transfers) : Type 0 where
  pub told : Told x.notified 0 x.table
  pub hooked : x.has_notify ≡ true

ready-IsTold : (max : ℕ) → IsTold (ready max)
unfolding init set_notify
ready-IsTold max = record { told = Told-wiped 0 (replicate max zero_entry); hooked = refl }

created-IsTold :
    {x : Transfers} (pid : Text) {r : ℤ × Transfers}
    → Creates x (fresh_entry pid) r
    → IsTold x
    → IsTold r.1
created-IsTold pid (full h) v = v
created-IsTold {x = x} pid (takes i old at free) v = record {
  told = Told-set x.notified 0 x.table i old (fresh_entry pid) at (ground arith) v.told;
  hooked = v.hooked;
}

-- A step into TRANSFERRING, which calls the hook.
abbrev is_start : XferState → XferEvent → Bool
is_start s event = not (is_transferring s) && is_transferring (sm_next s event)

started-same :
    (s : XferState) (event : XferEvent)
    → is_start s event ≡ false
    → has_started (sm_next s event) ≡ has_started s
unfolding sm_next
started-same s event h = ground arith

started-new :
    (s : XferState) (event : XferEvent)
    → is_start s event ≡ true
    → (has_started s ≡ false) × (has_started (sm_next s event) ≡ true)
unfolding sm_next
started-new s event h = ground arith

fire-start :
    (x : Transfers) (i : ℕ) (s : XferState) (event : XferEvent)
    → is_start s event ≡ true
    → x.has_notify ≡ true
    → fire x i s (sm_next s event) ≡ record x { notified = i ∷ x.notified }
unfolding fire
fire-start x i s event h n = ground arith

fire-quiet :
    (x : Transfers) (i : ℕ) (s : XferState) (event : XferEvent)
    → is_start s event ≡ false
    → fire x i s (sm_next s event) ≡ x
unfolding fire
fire-quiet x i s event h = ground arith

moved-IsTold :
    (x : Transfers) (i : ℕ) (event : XferEvent) (e : XferEntry)
    → get_elem? x.table i ≡ some e
    → e.active ≡ true
    → IsTold x
    → IsTold (moved x i event e).1
moved-IsTold x i event e g a v = elim (Bool-cases (is_start e.state event)) [
  | inl h ↦
      let new = started-new e.state event h in
      rw (fire-start written i e.state event h v.hooked) (record {
        told =
            subst (λ n. Told (n ∷ x.notified) 0 (set x.table i e')) (omega arith)
              (Told-start x.notified 0 x.table i e e' g (ground arith) (ground arith) v.told);
        hooked = v.hooked;
      })
  | inr h ↦
      let same = started-same e.state event h in
      rw (fire-quiet written i e.state event h) (record {
        told = Told-set x.notified 0 x.table i e e' g (ground arith) v.told;
        hooked = v.hooked;
      })
]
  where
    e' : XferEntry
    e' = record e { state = sm_next e.state event }

    written : Transfers
    written = record x { table = set x.table i e' }

applied-IsTold :
    {x : Transfers} {i : ℕ} {event : XferEvent} {r : XferState × Transfers}
    → Applies x i event r
    → IsTold x
    → IsTold r.1
applied-IsTold (missing h) v = v
applied-IsTold {x = x} {i = i} {event = event} (moves e g a) v = moved-IsTold x i event e g a v

step-IsTold : (x : Transfers) (c : XferCall) → IsTold x → IsTold (step x c)
unfolding step create apply
step-IsTold x (creates none) v = v
step-IsTold x (creates (some pid)) v = created-IsTold pid (create-Creates x pid) v
step-IsTold x (applies (negsuc n) event) v = v
step-IsTold x (applies (pos i) event) v = applied-IsTold (apply-Applies x i event) v

run-IsTold : (x : Transfers) (cs : List XferCall) → IsTold x → IsTold (run x cs)
unfolding run
run-IsTold x [] v = v
run-IsTold x (c ∷ cs) v = run-IsTold (step x c) cs (step-IsTold x c v)

-- What `Told` says of one slot.
Told-at :
    (ns : List ℕ) (k : ℕ) (t : List XferEntry) (i : ℕ) (e : XferEntry)
    → Told ns k t
    → get_elem? t i ≡ some e
    → times (k + i) ns ≡ due e
Told-at ns k [] i e b g = absurd (cc)
Told-at ns k (y ∷ t) zero e b g = ground (arith, b.0, ap due (some-injective y e g))
Told-at ns k (y ∷ t) (suc i) e b g =
    subst (λ n. times n ns ≡ due e) (omega arith) (Told-at ns (suc k) t i e b.1 g)

-- After any creations and events on a module that is up with a hook, the hook was called for a slot
-- exactly once if the slot holds a transfer that has left INITIAL, and never otherwise.
pub notified_once :
    (max : ℕ) (cs : List XferCall) (i : ℕ) (e : XferEntry)
    → get_elem? (run (ready max) cs).table i ≡ some e
    → times i (run (ready max) cs).notified ≡ (if e.active && has_started e.state then 1 else 0)
notified_once max cs i e g =
    let x = run (ready max) cs in
    let v = run-IsTold (ready max) cs (ready-IsTold max) in
    subst (λ n. times n x.notified ≡ due e) (omega arith)
      (Told-at x.notified 0 x.table i e v.told g)
