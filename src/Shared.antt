-- ===== src/Shared.antt =====
-- components/dsp_shared/dsp_shared.c and include/dsp_shared.h: the state that the two cores share.
-- A critical section, from `ring_lock` to `ring_unlock`, is one step of the model. A FreeRTOS handle
-- is kept as whether it is not NULL; the objects that FreeRTOS holds for the module are counted.
use dsp_embedded.Prelude.{
  ℕ, zero, suc, ◌+◌, ◌-◌, ◌%◌, ◌^◌, ◌≡◌, Bool, true, false, not, ◌||◌, Option, none, some, List, [],
  ◌∷◌, if◌then◌else◌, ltb, leb, ◌==◌, get_or, set, replicate, min,
}
use dsp_embedded.Esp.{EspErr, is_ok, ok, no_mem, invalid_arg, not_found}
pub mod Init
pub mod Queue
pub mod Ring
pub mod Clients
pub mod Pushes
mod Tests

-- `dsp_sample_t`, without its padding.
pub record Sample : Type 0 where
  pub timestamp_us : ℕ
  pub raw_value : ℕ
  pub channel : ℕ

abbrev pub zero_sample : Sample
zero_sample = record { timestamp_us = 0; raw_value = 0; channel = 0 }

-- `DSP_RING_BUF_CAPACITY`.
abbrev pub capacity : ℕ
capacity = 32

-- `dsp_ring_buf_t`, without its padding.
pub record RingBuf : Type 0 where
  pub samples : List Sample
  pub head : ℕ
  pub tail : ℕ
  pub count : ℕ

abbrev pub zero_ring : RingBuf
zero_ring = record { samples = replicate capacity zero_sample; head = 0; tail = 0; count = 0 }

-- `dsp_shared_t`. `data_pending` is the number of messages in `data_notify_q`, whose depth is 1.
pub record Shared : Type 0 where
  pub ring : RingBuf
  pub mutex : Bool
  pub xfer_q : Bool
  pub data_q : Bool
  pub data_pending : ℕ
  pub core0_ready : ℕ
  pub core1_ready : ℕ

-- A `dsp_shared_t` of zero bytes.
abbrev pub zero_shared : Shared
zero_shared = record {
  ring = zero_ring;
  mutex = false;
  xfer_q = false;
  data_q = false;
  data_pending = 0;
  core0_ready = 0;
  core1_ready = 0;
}

-- `uint32_t` arithmetic.
abbrev pub u32 : ℕ → ℕ
u32 x = x % 2 ^ 32

-- Which of the three creations of `dsp_shared_init` FreeRTOS grants.
pub record Grants : Type 0 where
  pub mutex_ok : Bool
  pub xfer_q_ok : Bool
  pub data_q_ok : Bool

-- `dsp_shared_init` behind the test for NULL, with the number of objects that FreeRTOS holds.
abbrev pub init_struct : Grants → ℕ → EspErr × Shared × ℕ
init_struct g held =
    if not g.mutex_ok
    then (no_mem, zero_shared, held)
    else if not g.xfer_q_ok
    then (no_mem, record zero_shared { mutex = false }, held + 1 - 1)
    else if not g.data_q_ok
    then (no_mem, record zero_shared { xfer_q = false; mutex = false }, held + 2 - 2)
    else (ok, record zero_shared { mutex = true; xfer_q = true; data_q = true }, held + 3)

-- `dsp_shared_init`; NULL is `none`.
pub init : Grants → Option Shared → ℕ → EspErr × Option Shared × ℕ
init g none held = (invalid_arg, none, held)
init g (some sh) held = let (err, sh', held') = init_struct g held in (err, some sh', held')

-- A handle that is not NULL is deleted.
abbrev pub release : Bool → ℕ → ℕ
release h held = if h then held - 1 else held

pub deinit : Shared → ℕ → Shared × ℕ
deinit sh held = (
  record sh {
    ring = zero_ring;
    mutex = false;
    xfer_q = false;
    data_q = false;
    data_pending = 0;
    core0_ready = 0;
    core1_ready = 0;
  },
  release sh.mutex (release sh.xfer_q (release sh.data_q held)),
)

-- The critical section of `dsp_ring_buf_push`.
pub ring_push : RingBuf → Sample → EspErr × RingBuf
ring_push r x = if leb capacity r.count then (no_mem, r) else (
  ok,
  record r {
    samples = set r.samples r.head x;
    head = u32 (r.head + 1) % capacity;
    count = u32 (r.count + 1);
  },
)

-- `xQueueSend` without waiting, to a queue of depth 1.
abbrev pub post : Shared → Shared
post sh = if sh.data_q then record sh { data_pending = min 1 (sh.data_pending + 1) } else sh

-- `dsp_ring_buf_push`; `none` stands for a NULL pointer.
pub push : Option Shared → Option Sample → EspErr × Option Shared
push none x = (invalid_arg, none)
push (some sh) none = (invalid_arg, some sh)
push (some sh) (some x) =
    let (err, r) = ring_push sh.ring x in
    if is_ok err then (ok, some (post (record sh { ring = r }))) else (err, some sh)

-- The sample at the tail, and the ring without it.
abbrev pub take_oldest : RingBuf → Sample × RingBuf
take_oldest r = (
  get_or r.samples r.tail zero_sample,
  record r { tail = u32 (r.tail + 1) % capacity; count = r.count - 1 },
)

-- The critical section of `dsp_ring_buf_pop`; the option is what is written to `*out`.
pub ring_pop : RingBuf → EspErr × Option Sample × RingBuf
ring_pop r =
    if r.count == 0
    then (not_found, none, r)
    else let (x, rest) = take_oldest r in (ok, some x, rest)

-- `dsp_ring_buf_pop`; the Boolean says that `out` is not NULL.
pub pop : Option Shared → Bool → EspErr × Option Sample × Option Shared
pop none out = (invalid_arg, none, none)
pop (some sh) false = (invalid_arg, none, some sh)
pop (some sh) true = let (err, x, r) = ring_pop sh.ring in (err, x, some (record sh { ring = r }))

-- `dsp_ring_buf_count`.
pub count : Option Shared → ℕ
count none = 0
count (some sh) = sh.ring.count

-- The loop of `dsp_ring_buf_drain`, with the rounds left: what it writes to `buf`, in order.
pub drain_loop : ℕ → RingBuf → List Sample × RingBuf
drain_loop zero r = ([], r)
drain_loop (suc n) r =
    let (x, rest) = take_oldest r in let (xs, r') = drain_loop n rest in (x ∷ xs, r')

-- The critical section of `dsp_ring_buf_drain`: what it writes to `buf`, and to `*out_count`.
pub ring_drain : RingBuf → ℕ → List Sample × ℕ × RingBuf
ring_drain r cap =
    let n = if ltb r.count cap then r.count else cap in let (xs, r') = drain_loop n r in (xs, n, r')

-- `dsp_ring_buf_drain`; the Boolean says that `buf` is not NULL. What is written to `*out_count` is
-- an option, which the caller may decline by a NULL pointer.
pub drain : Option Shared → Bool → ℕ → EspErr × List Sample × Option ℕ × Option Shared
drain sh buf zero = (ok, [], some 0, sh)
drain none buf (suc c) = (invalid_arg, [], none, none)
drain (some sh) false (suc c) = (invalid_arg, [], none, some sh)
drain (some sh) true (suc c) =
    let (xs, n, r) = ring_drain sh.ring (suc c) in (ok, xs, some n, some (record sh { ring = r }))
