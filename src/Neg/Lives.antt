-- ===== src/Neg/Lives.antt =====
-- What becomes of one negotiation over a history of calls to dsp_neg.
use dsp_embedded.Prelude.{
  ℕ, ◌≤◌, ◌≡◌, refl, ap, ◌∙◌, true, Option, none, some, List, [], ◌∷◌, arith, get_elem?, set, Text,
  ℤ, pos, negsuc, get_elem?-lt, get_elem?-set_self, get_elem?-set_ne, ◌≢◌, inl, inr, sym, subst,
}
use native.Mathlib.Decide.{ℕ_discrete}
use dsp_embedded.Neg.{
  NegState, NegEvent, NegEntry, Negotiations, sm_next, create, apply, init, load_slot, fresh_entry,
}
use dsp_embedded.Neg.Machine.{rank, rank-sm_next}
use dsp_embedded.Neg.Slots.{
  Creates, full, takes, create-Creates, Applies, missing, moves, apply-Applies,
}
use dsp_embedded.Neg.Lifecycle.{
  NegCall, step, run, initializes, resets, creates, applies, loads, load_slot_cases,
}

-- A negotiation of table `t` that `e` describes lives on in table `u` at the same slot: in use, with
-- the same PIDs, and no less far.
pub record LivesOn (e : NegEntry) (u : List NegEntry) (i : ℕ) : Type 0 where
  pub now : NegEntry
  pub there : get_elem? u i ≡ some now
  pub in_use : now.active ≡ true
  pub same_consumer : now.consumer_pid ≡ e.consumer_pid
  pub same_provider : now.provider_pid ≡ e.provider_pid
  pub no_less_far : rank e.state ≤ rank now.state

-- The call is no reset and loads nothing into slot `i`.
abbrev pub Spares : ℕ → NegCall → Type 0
Spares i resets = ⊥
Spares i (loads idx s cpid ppid) = idx ≢ pos i
Spares i _ = Unit {0}

abbrev pub AllSpare : ℕ → List NegCall → Type 0
AllSpare i [] = Unit {0}
AllSpare i (c ∷ cs) = Spares i c × AllSpare i cs

stays :
    (e : NegEntry) (t : List NegEntry) (i : ℕ)
    → get_elem? t i ≡ some e
    → e.active ≡ true
    → LivesOn e t i
stays e t i g a = record {
  now = e;
  there = g;
  in_use = a;
  same_consumer = refl;
  same_provider = refl;
  no_less_far = omega arith;
}

created-LivesOn :
    {m : Negotiations} {f e : NegEntry} {i : ℕ} {r : ℤ × Negotiations}
    → Creates m f r
    → get_elem? m.table i ≡ some e
    → e.active ≡ true
    → LivesOn e r.1.table i
created-LivesOn {m = m} {e = e} {i = i} (full h) g a = stays e m.table i g a
created-LivesOn {m = m} {f = f} {e = e} {i = i} (takes k old at free before) g a =
    stays e (set m.table k f) i (elsewhere (ℕ_discrete k i)) a
  where
    elsewhere : Dec (k ≡ i) → get_elem? (set m.table k f) i ≡ some e
    elsewhere (yes same) = absurd (ground (arith, at, free, g, same))
    elsewhere (no other) = rw (get_elem?-set_ne m.table k i f other) g

applied-LivesOn :
    {m : Negotiations} {k : ℕ} {event : NegEvent} {e : NegEntry} {i : ℕ}
    {r : NegState × Negotiations}
    → Applies m k event r
    → get_elem? m.table i ≡ some e
    → e.active ≡ true
    → LivesOn e r.1.table i
applied-LivesOn {m = m} {e = e} {i = i} (missing h) g a = stays e m.table i g a
applied-LivesOn {m = m} {k = k} {event = event} {e = e} {i = i} (moves x at busy) g a =
    elim (ℕ_discrete k i) [
      | yes same ↦ record {
        now = x';
        there = rw (← same) (get_elem?-set_self m.table k x' (get_elem?-lt m.table k at));
        in_use = busy;
        same_consumer = ground arith;
        same_provider = ground arith;
        no_less_far = omega (arith, rank-sm_next x.state event, ap rank (same_state same));
      }
      | no other ↦ stays e (set m.table k x') i (rw (get_elem?-set_ne m.table k i x' other) g) a
    ]
  where
    same_state : k ≡ i → x.state ≡ e.state
    same_state same = ground (arith, at, g, same)

    x' : NegEntry
    x' = record x { state = sm_next x.state event }

pub create-LivesOn :
    (m : Negotiations) {e : NegEntry} {i : ℕ} (cpid ppid : Option Text)
    → get_elem? m.table i ≡ some e
    → e.active ≡ true
    → LivesOn e (create m cpid ppid).1.table i
unfolding create
create-LivesOn m {e = e} {i = i} none ppid g a = stays e m.table i g a
create-LivesOn m {e = e} {i = i} (some c) none g a = stays e m.table i g a
create-LivesOn m (some c) (some p) g a = created-LivesOn (create-Creates m c p) g a

pub apply-LivesOn :
    (m : Negotiations) {e : NegEntry} {i : ℕ} (idx : ℤ) (event : NegEvent)
    → get_elem? m.table i ≡ some e
    → e.active ≡ true
    → LivesOn e (apply m idx event).1.table i
unfolding apply
apply-LivesOn m {e = e} {i = i} (negsuc n) event g a = stays e m.table i g a
apply-LivesOn m (pos k) event g a = applied-LivesOn (apply-Applies m k event) g a

loaded-LivesOn :
    (m : Negotiations) {e : NegEntry} {i : ℕ} (idx : ℤ) (s : NegState) (cpid ppid : Option Text)
    → idx ≢ pos i
    → get_elem? m.table i ≡ some e
    → e.active ≡ true
    → LivesOn e (load_slot m idx s cpid ppid).1.table i
unfolding load_slot
loaded-LivesOn m {e = e} {i = i} (negsuc n) s cpid ppid other g a = stays e m.table i g a
loaded-LivesOn m {e = e} {i = i} (pos k) s none ppid other g a = stays e m.table i g a
loaded-LivesOn m {e = e} {i = i} (pos k) s (some c) none other g a = stays e m.table i g a
loaded-LivesOn m {e = e} {i = i} (pos k) s (some c) (some p) other g a =
    let f : NegEntry = record (fresh_entry c p) { state = s } in
    let kept : LivesOn e (set m.table k f) i =
      stays e (set m.table k f) i (get_elem?-set_ne m.table k i f (λ q. other (ap pos q)) ∙ g) a in
    elim (load_slot_cases m k s c p) [
      | inl same ↦ subst (λ n. LivesOn e n.table i) (sym same) (stays e m.table i g a)
      | inr new ↦ subst (λ n. LivesOn e n.table i) (sym new) kept
    ]

step-LivesOn :
    (m : Negotiations) {e : NegEntry} {i : ℕ} (c : NegCall)
    → Spares i c
    → m.initialized ≡ true
    → get_elem? m.table i ≡ some e
    → e.active ≡ true
    → LivesOn e (step m c).table i
unfolding step init
step-LivesOn m {e = e} {i = i} initializes n up g a = simp (up, step, init) (stays e m.table i g a)
step-LivesOn m resets n up g a = absurd n
step-LivesOn m (creates cpid ppid) n up g a = create-LivesOn m cpid ppid g a
step-LivesOn m (applies idx event) n up g a = apply-LivesOn m idx event g a
step-LivesOn m (loads idx s cpid ppid) n up g a = loaded-LivesOn m idx s cpid ppid n g a

load_slot-initialized :
    (m : Negotiations) (idx : ℤ) (s : NegState) (cpid ppid : Option Text)
    → (load_slot m idx s cpid ppid).1.initialized ≡ m.initialized
unfolding load_slot
load_slot-initialized m (negsuc n) s cpid ppid = refl
load_slot-initialized m (pos k) s none ppid = refl
load_slot-initialized m (pos k) s (some c) none = refl
load_slot-initialized m (pos k) s (some c) (some p) = elim (load_slot_cases m k s c p) [
  | inl same ↦ ap (λ n. n.initialized) same
  | inr new ↦ ap (λ n. n.initialized) new
]

step-initialized :
    (m : Negotiations) (i : ℕ) (c : NegCall)
    → Spares i c
    → m.initialized ≡ true
    → (step m c).initialized ≡ true
unfolding step init create apply
step-initialized m i initializes n up = ground arith
step-initialized m i resets n up = absurd n
step-initialized m i (creates none ppid) n up = up
step-initialized m i (creates (some c) none) n up = up
step-initialized m i (creates (some c) (some p)) n up = ground arith
step-initialized m i (applies (negsuc k) event) n up = up
step-initialized m i (applies (pos k) event) n up = ground arith
step-initialized m i (loads idx s cpid ppid) n up = load_slot-initialized m idx s cpid ppid ∙ up

-- Once the table is initialised, no sequence of calls without dsp_neg_deinit and without a
-- dsp_neg_load_slot into slot `i` frees that slot: whatever negotiation stands there stands there for
-- good, with its PIDs, and only moves forward.
pub run-LivesOn :
    (cs : List NegCall) (m : Negotiations) (e : NegEntry) (i : ℕ)
    → AllSpare i cs
    → m.initialized ≡ true
    → get_elem? m.table i ≡ some e
    → e.active ≡ true
    → LivesOn e (run m cs).table i
unfolding run
run-LivesOn [] m e i n up g a = stays e m.table i g a
run-LivesOn (c ∷ cs) m e i n up g a =
    let s = step-LivesOn m c n.0 up g a in
    let r =
      run-LivesOn cs (step m c) s.now i n.1 (step-initialized m i c n.0 up) s.there s.in_use in
    record {
      now = r.now;
      there = r.there;
      in_use = r.in_use;
      same_consumer = r.same_consumer ∙ s.same_consumer;
      same_provider = r.same_provider ∙ s.same_provider;
      no_less_far = omega (arith, r.no_less_far, s.no_less_far);
    }
