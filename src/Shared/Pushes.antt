-- ===== src/Shared/Pushes.antt =====
-- A series of pushes to the ring buffer of dsp_shared.c: the samples that find room are kept, and the
-- others are dropped.
use dsp_embedded.Prelude.{
  ℕ, zero, suc, ◌≤◌, ◌≡◌, refl, ap, sym, subst, ◌∙◌, inl, inr, false, Option, none, some, List, [],
  ◌∷◌, ◌++◌, arith, ltb, length, take, take_of_le, length-take, length-append, Bool-cases,
}
use dsp_embedded.Shared.{Shared, Sample, push}
use dsp_embedded.Shared.Queue
use dsp_embedded.Shared.Ring.{IsValid, contents, ring_push_refines, length-contents}
use dsp_embedded.Shared.Clients.{Holds}

take-append {ℓ} :
    {A : Type ℓ} (n : ℕ) (xs ys : List A) → n ≤ length xs → take n (xs ++ ys) ≡ take n xs
take-append zero xs ys h = refl
take-append (suc n) [] ys h = absurd (omega (arith, h))
take-append (suc n) (x ∷ xs) ys h = ap (◌∷◌ x) (take-append n xs ys (omega (arith, h)))

push-take : (l : List Sample) (x : Sample) → (Queue.push (take 32 l) x).1 ≡ take 32 (l ++ (x ∷ []))
unfolding Queue.push
push-take l x = elim (Bool-cases (ltb (length l) 32)) [
  | inl e ↦
      let all : take 32 l ≡ l = take_of_le 32 l (ground (arith, e)) in
      rw (all, e)
        (sym (take_of_le 32 (l ++ (x ∷ [])) (ground (arith, e, length-append l (x ∷ [])))))
  | inr e ↦
      let at_least : 32 ≤ length l = ground (arith, e) in
      let is_full : ltb (length (take 32 l)) 32 ≡ false =
        ground (arith, length-take 32 l, at_least) in
      rw is_full (sym (take-append 32 l (x ∷ []) at_least))
]

push-Holds_queue :
    (sh : Shared) (x : Sample)
    → IsValid sh.ring
    → Holds (push (some sh) (some x)).1 (Queue.push (contents sh.ring) x).1
unfolding push Queue.push
push-Holds_queue sh x v = ground (arith, ring_push_refines sh.ring x v)

-- A push on a shared state that holds the first 32 samples of `l`.
pub push-Holds :
    (sh : Option Shared) (l : List Sample) (x : Sample)
    → Holds sh (take 32 l)
    → Holds (push sh (some x)).1 (take 32 (l ++ (x ∷ [])))
push-Holds none l x h = absurd h
push-Holds (some sh) l x (v, held) =
    subst (Holds (push (some sh) (some x)).1) (ap (λ q. (Queue.push q x).1) held ∙ push-take l x)
      (push-Holds_queue sh x v)

pub contents-take : (sh : Shared) → IsValid sh.ring → contents sh.ring ≡ take 32 (contents sh.ring)
contents-take sh v =
    sym (take_of_le 32 (contents sh.ring) (omega (arith, length-contents sh.ring, v.count_in)))
