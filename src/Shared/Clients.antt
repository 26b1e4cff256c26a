-- ===== src/Shared/Clients.antt =====
-- The calls of the two cores on one shared state, in any order: each call is a critical section, so
-- an interleaving of the cores is a list of calls.
use dsp_embedded.Prelude.{
  ℕ, zero, suc, ◌≡◌, refl, subst, ap₂, true, Option, none, some, List, [], ◌∷◌, arith, length,
}
use dsp_embedded.Esp.{EspErr, ok}
use dsp_embedded.Shared.{Shared, Sample, push, pop, count, drain}
use dsp_embedded.Shared.Queue
use dsp_embedded.Shared.Queue.{Queue}
use dsp_embedded.Shared.Ring.{
  IsValid, contents, ring_push_refines, ring_pop_refines, ring_drain_refines, length-contents,
}

pub data Call : Type 0 where
  put : Sample → Call
  get : Call
  grab : ℕ → Call
  size : Call

-- What the caller sees: the status, the samples written through its pointer, a number.
pub record Reply : Type 0 where
  pub status : EspErr
  pub samples : List Sample
  pub number : ℕ

abbrev pub one_or_none : Option Sample → List Sample
one_or_none none = []
one_or_none (some x) = x ∷ []

abbrev pub number_or_zero : Option ℕ → ℕ
number_or_zero none = 0
number_or_zero (some n) = n

-- A call with valid pointers.
pub serve : Option Shared → Call → Reply × Option Shared
serve sh (put x) =
    let (err, sh') = push sh (some x) in (record { status = err; samples = []; number = 0 }, sh')
serve sh get =
    let (err, x, sh') = pop sh true in
    (record { status = err; samples = one_or_none x; number = 0 }, sh')
serve sh (grab room) =
    let (err, xs, n, sh') = drain sh true room in
    (record { status = err; samples = xs; number = number_or_zero n }, sh')
serve sh size = (record { status = ok; samples = []; number = count sh }, sh)

pub run : Option Shared → List Call → List Reply
run sh [] = []
run sh (c ∷ cs) = let (reply, sh') = serve sh c in reply ∷ run sh' cs

-- The same calls on the queue.
pub answer : Queue → Call → Reply × Queue
answer q (put x) =
    let (err, q') = Queue.push q x in (record { status = err; samples = []; number = 0 }, q')
answer q get =
    let (err, x, q') = Queue.pop q in
    (record { status = err; samples = one_or_none x; number = 0 }, q')
answer q (grab room) =
    let (xs, n, q') = Queue.drain q room in (record { status = ok; samples = xs; number = n }, q')
answer q size = (record { status = ok; samples = []; number = length q }, q)

pub replies : Queue → List Call → List Reply
replies q [] = []
replies q (c ∷ cs) = let (reply, q') = answer q c in reply ∷ replies q' cs

-- A shared state whose ring is valid and holds `q`.
abbrev pub Holds : Option Shared → Queue → Type 0
Holds none q = ⊥
Holds (some sh) q = IsValid sh.ring × (contents sh.ring ≡ q)

serve_refines :
    (sh : Shared) (c : Call)
    → IsValid sh.ring
    → ((serve (some sh) c).0 ≡ (answer (contents sh.ring) c).0)
      × Holds (serve (some sh) c).1 (answer (contents sh.ring) c).1
unfolding serve answer push pop drain count Queue.push Queue.drain
serve_refines sh (put x) v = ground (arith, ring_push_refines sh.ring x v)
serve_refines sh get v = ground (arith, ring_pop_refines sh.ring v)
serve_refines sh (grab zero) v = ground arith
serve_refines sh (grab (suc room)) v = ground (arith, ring_drain_refines sh.ring (suc room) v)
serve_refines sh size v = ground (arith, length-contents sh.ring)

run-Holds :
    (cs : List Call) (sh : Option Shared) (q : Queue) → Holds sh q → run sh cs ≡ replies q cs
unfolding run replies
run-Holds [] sh q h = refl
run-Holds (c ∷ cs) none q h = absurd h
run-Holds (c ∷ cs) (some sh) q h =
    let s = serve_refines sh c h.0 in
    subst (λ p. run (some sh) (c ∷ cs) ≡ replies p (c ∷ cs)) h.1
      (ap₂ ◌∷◌ s.0 (run-Holds cs (serve (some sh) c).1 (answer (contents sh.ring) c).1 s.1))

-- No sequence of calls tells the shared ring buffer from the queue of the samples that it holds: the
-- statuses, the samples and the numbers returned are the queue's.
pub run_refines :
    (cs : List Call) (sh : Shared)
    → IsValid sh.ring
    → run (some sh) cs ≡ replies (contents sh.ring) cs
run_refines cs sh v = run-Holds cs (some sh) (contents sh.ring) (v, refl)
