-- ===== src/Shared/Queue.antt =====
-- What the ring buffer promises: a queue of at most 32 samples, oldest first, that drops the newest
-- sample when it is full.
use dsp_embedded.Prelude.{
  ℕ, Option, none, some, List, [], ◌∷◌, ◌++◌, if◌then◌else◌, ltb, length, take, drop, min,
}
use dsp_embedded.Esp.{EspErr, ok, no_mem, not_found}
use dsp_embedded.Shared.{Sample, capacity}

abbrev pub Queue : Type 0
Queue = List Sample

unfoldable pub push : Queue → Sample → EspErr × Queue
push q x = if ltb (length q) capacity then (ok, q ++ (x ∷ [])) else (no_mem, q)

unfoldable pub pop : Queue → EspErr × Option Sample × Queue
pop [] = (not_found, none, [])
pop (x ∷ q) = (ok, some x, q)

unfoldable pub drain : Queue → ℕ → List Sample × ℕ × Queue
drain q cap = (take cap q, min cap (length q), drop cap q)
