-- ===== src/Shared/Ring.antt =====
-- The ring buffer of dsp_shared.c and the queue of Shared/Queue.antt.
use dsp_embedded.Prelude.{
  ℕ, zero, suc, ◌+◌, ◌-◌, ◌%◌, ◌≤◌, ◌<◌, ◌≡◌, ◌≢◌, refl, ap, ap₂, sym, ◌∙◌, List, [], ◌∷◌, ◌++◌,
  arith, get_or, set, length, length-set, take, drop, take_of_le,
}
use dsp_embedded.Shared.{
  Sample, zero_sample, RingBuf, zero_ring, ring_push, ring_pop, ring_drain, drain_loop, take_oldest,
  u32,
}
use native.Mathlib.Decide.{ℕ_discrete, dec_lt}
use dsp_embedded.Shared.Queue
use dsp_embedded.Shared.Queue.{Queue}

-- No index is out of range, and `head` is the slot behind the newest sample.
pub record IsValid (r : RingBuf) : Type 0 where
  pub storage : length r.samples ≡ 32
  pub tail_in : r.tail < 32
  pub count_in : r.count ≤ 32
  pub head_at : r.head ≡ (r.tail + r.count) % 32

-- The `n` samples from slot `t` on, round the array.
abbrev pub arc : List Sample → ℕ → ℕ → Queue
arc xs t zero = []
arc xs t (suc n) = get_or xs t zero_sample ∷ arc xs ((t + 1) % 32) n

-- What the ring holds, oldest first.
abbrev pub contents : RingBuf → Queue
contents r = arc r.samples r.tail r.count

length-arc : (xs : List Sample) (t n : ℕ) → length (arc xs t n) ≡ n
length-arc xs t zero = refl
length-arc xs t (suc n) = ap suc (length-arc xs ((t + 1) % 32) n)

pub length-contents : (r : RingBuf) → length (contents r) ≡ r.count
length-contents r = length-arc r.samples r.tail r.count

get_or-set_hit :
    (xs : List Sample) (i : ℕ) (x : Sample) → i < length xs → get_or (set xs i x) i zero_sample ≡ x
get_or-set_hit [] i x h = absurd (omega arith)
get_or-set_hit (y ∷ xs) zero x h = refl
get_or-set_hit (y ∷ xs) (suc i) x h = get_or-set_hit xs i x (omega arith)

get_or-set_miss :
    (xs : List Sample) (i j : ℕ) (x : Sample)
    → i ≢ j
    → get_or (set xs i x) j zero_sample ≡ get_or xs j zero_sample
get_or-set_miss [] i j x h = refl
get_or-set_miss (y ∷ xs) zero zero x h = absurd (h refl)
get_or-set_miss (y ∷ xs) zero (suc j) x h = refl
get_or-set_miss (y ∷ xs) (suc i) zero x h = refl
get_or-set_miss (y ∷ xs) (suc i) (suc j) x h = get_or-set_miss xs i j x (λ e. h (ap suc e))

-- A write just behind an arc makes it one sample longer.
arc-set :
    (xs : List Sample) (x : Sample) (n t i : ℕ)
    → length xs ≡ 32
    → t < 32
    → n < 32
    → i ≡ (t + n) % 32
    → arc (set xs i x) t (suc n) ≡ arc xs t n ++ (x ∷ [])
arc-set xs x zero t i l ht hn e =
    let same : i ≡ t = omega arith in
    rw same (ap (λ y. y ∷ []) (get_or-set_hit xs t x (omega arith)))
arc-set xs x (suc n) t i l ht hn e =
    ap₂ ◌∷◌ (get_or-set_miss xs i t x (omega arith))
      (arc-set xs x n ((t + 1) % 32) i l (omega arith) (omega arith) (omega arith))

pub zero_ring-IsValid : IsValid zero_ring
zero_ring-IsValid = omega arith

pub ring_push-IsValid : (r : RingBuf) (x : Sample) → IsValid r → IsValid (ring_push r x).1
unfolding ring_push
ring_push-IsValid r x v = ground (arith, length-set r.samples r.head x)

-- A push on a valid ring is the queue's push: where there is room it adds the sample as the newest,
-- otherwise it drops that sample with ESP_ERR_NO_MEM.
pub ring_push_refines :
    (r : RingBuf) (x : Sample)
    → IsValid r
    → let (err, r') = ring_push r x in
      let (err', q) = Queue.push (contents r) x in (err ≡ err') × (contents r' ≡ q) × IsValid r'
unfolding ring_push Queue.push
ring_push_refines r x v =
    let next : u32 (r.count + 1) ≡ suc r.count = omega arith in
    ground (
      arith,
      length-arc r.samples r.tail r.count,
      arc-set r.samples x r.count r.tail r.head v.storage v.tail_in,
      ap (λ n. arc (set r.samples r.head x) r.tail n) next,
      ring_push-IsValid r x v,
    )

arc-pred :
    (xs : List Sample) (t n : ℕ)
    → n ≢ 0
    → arc xs t n ≡ get_or xs t zero_sample ∷ arc xs ((t + 1) % 32) (n - 1)
arc-pred xs t zero h = absurd (h refl)
arc-pred xs t (suc n) h = ap (λ k. get_or xs t zero_sample ∷ arc xs ((t + 1) % 32) k) (omega arith)

take_oldest-IsValid : (r : RingBuf) → IsValid r → r.count ≢ 0 → IsValid (take_oldest r).1
take_oldest-IsValid r v h = omega arith

contents-take_oldest :
    (r : RingBuf)
    → IsValid r
    → r.count ≢ 0
    → contents r ≡ (take_oldest r).0 ∷ contents (take_oldest r).1
contents-take_oldest r v h =
    let next : u32 (r.tail + 1) % 32 ≡ (r.tail + 1) % 32 = omega arith in
    arc-pred r.samples r.tail r.count h
    ∙ ap (λ t. get_or r.samples r.tail zero_sample ∷ arc r.samples t (r.count - 1)) (sym next)

-- A pop on a valid ring is the queue's pop: the oldest sample, or ESP_ERR_NOT_FOUND on an empty ring.
pub ring_pop_refines :
    (r : RingBuf)
    → IsValid r
    → let (err, x, r') = ring_pop r in
      let (err', x', q) = Queue.pop (contents r) in
      (err ≡ err') × (x ≡ x') × (contents r' ≡ q) × IsValid r'
unfolding ring_pop Queue.pop
ring_pop_refines r v = elim (ℕ_discrete r.count 0) [
  | yes e ↦ ground (arith, ap (λ n. arc r.samples r.tail n) e)
  | no h ↦ rw (contents-take_oldest r v h) (ground (arith, take_oldest-IsValid r v h))
]

-- `n` rounds of the drain loop on a ring that holds at least `n` samples.
drain_loop_refines :
    (n : ℕ) (r : RingBuf)
    → IsValid r
    → n ≤ r.count
    → let (xs, r') = drain_loop n r in
      (xs ≡ take n (contents r)) × (contents r' ≡ drop n (contents r)) × IsValid r'
unfolding drain_loop
drain_loop_refines zero r v h = (refl, refl, v)
drain_loop_refines (suc n) r v h =
    let busy : r.count ≢ 0 = omega arith in
    let rest = take_oldest r in
    let ih = drain_loop_refines n rest.1 (take_oldest-IsValid r v busy) (omega arith) in
    rw (contents-take_oldest r v busy) (ap (◌∷◌ rest.0) ih.0, ih.1, ih.2)

take-all : (q : Queue) (cap : ℕ) → length q ≤ cap → take cap q ≡ take (length q) q
take-all q cap h = take_of_le cap q h ∙ sym (take_of_le (length q) q (omega arith))

drop-all : (q : Queue) (cap : ℕ) → length q ≤ cap → drop cap q ≡ drop (length q) q
drop-all [] zero h = refl
drop-all [] (suc cap) h = refl
drop-all (x ∷ q) zero h = absurd (omega arith)
drop-all (x ∷ q) (suc cap) h = drop-all q cap (omega arith)

-- A drain on a valid ring is the queue's drain: the oldest samples, in order, as many as are wanted
-- and there, and their number.
pub ring_drain_refines :
    (r : RingBuf) (cap : ℕ)
    → IsValid r
    → let (xs, n, r') = ring_drain r cap in
      let (xs', n', q) = Queue.drain (contents r) cap in
      (xs ≡ xs') × (n ≡ n') × (contents r' ≡ q) × IsValid r'
unfolding ring_drain Queue.drain
ring_drain_refines r cap v =
    let size = length-arc r.samples r.tail r.count in
    elim (dec_lt r.count cap) [
      | yes few ↦
          let d = drain_loop_refines r.count r v (omega arith) in
          ground (arith, d, size, take-all (contents r) cap, drop-all (contents r) cap)
      | no many ↦ let d = drain_loop_refines cap r v (omega arith) in ground (arith, d, size)
    ]
