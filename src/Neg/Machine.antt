-- ===== src/Neg/Machine.antt =====
-- The negotiation state machine against the transitions that dsp_neg.h draws.
use dsp_embedded.Prelude.{
  ℕ, ◌≤◌, ◌≡◌, refl, ◌≢◌, ◌↔◌, ◌∙◌, subst, List, [], ◌∷◌, arith, ◌<◌, ◌⊎◌, inl, inr,
}
use native.Mathlib.Decide.{dec_lt}
use dsp_embedded.Neg.{
  NegState, initial, requested, offered, agreed, verified, finalized, terminated, NegEvent, offer,
  agree, verify, finalize, terminate, sm_next,
}

-- The arrows of the diagram in dsp_neg.h.
pub data Arrow : NegState → NegEvent → NegState → Type 0 where
  offering : Arrow requested offer offered
  agreeing : Arrow offered agree agreed
  agreeing_at_once : Arrow requested agree agreed
  verifying : Arrow agreed verify verified
  finalizing : Arrow verified finalize finalized
  rejecting : Arrow requested terminate terminated
  withdrawing : Arrow offered terminate terminated
  cancelling : Arrow agreed terminate terminated

-- How far a negotiation has come.
abbrev pub rank : NegState → ℕ
rank initial = 0
rank requested = 1
rank offered = 2
rank agreed = 3
rank verified = 4
rank finalized = 5
rank terminated = 6

abbrev pub sm_run : NegState → List NegEvent → NegState
sm_run s [] = s
sm_run s (e ∷ es) = sm_run (sm_next s e) es

Arrow-sm_next : {s t : NegState} {e : NegEvent} → Arrow s e t → sm_next s e ≡ t
unfolding sm_next
Arrow-sm_next offering = refl
Arrow-sm_next agreeing = refl
Arrow-sm_next agreeing_at_once = refl
Arrow-sm_next verifying = refl
Arrow-sm_next finalizing = refl
Arrow-sm_next rejecting = refl
Arrow-sm_next withdrawing = refl
Arrow-sm_next cancelling = refl

-- The one move that the diagram does not draw: a verified negotiation is terminated.
abbrev pub Aborts : NegState → NegEvent → NegState → Type 0
Aborts s e t = (s ≡ verified) × (e ≡ terminate) × (t ≡ terminated)

abbrev pub Move : NegState → NegEvent → NegState → Type 0
Move s e t = Arrow s e t ⊎ Aborts s e t

-- Where the machine moves, it follows an arrow or this move.
moved : (s : NegState) (e : NegEvent) → s ≢ sm_next s e → Move s e (sm_next s e)
unfolding sm_next
moved requested offer h = inl offering
moved requested agree h = inl agreeing_at_once
moved requested terminate h = inl rejecting
moved requested verify h = absurd (h refl)
moved requested finalize h = absurd (h refl)
moved offered agree h = inl agreeing
moved offered terminate h = inl withdrawing
moved offered offer h = absurd (h refl)
moved offered verify h = absurd (h refl)
moved offered finalize h = absurd (h refl)
moved agreed verify h = inl verifying
moved agreed terminate h = inl cancelling
moved agreed offer h = absurd (h refl)
moved agreed agree h = absurd (h refl)
moved agreed finalize h = absurd (h refl)
moved verified finalize h = inl finalizing
moved verified terminate h = inr (refl, refl, refl)
moved verified offer h = absurd (h refl)
moved verified agree h = absurd (h refl)
moved verified verify h = absurd (h refl)
moved finalized _ h = absurd (h refl)
moved terminated _ h = absurd (h refl)
moved initial _ h = absurd (h refl)

Move-sm_next : {s t : NegState} {e : NegEvent} → Move s e t → sm_next s e ≡ t
unfolding sm_next
Move-sm_next (inl a) = Arrow-sm_next a
Move-sm_next (inr (from, by, to)) = rw (from, by, to) refl

-- Between different states, `dsp_neg_sm_next` takes `s` to `t` on an event exactly when the diagram
-- of dsp_neg.h has that arrow, or the event terminates a VERIFIED negotiation, for which the diagram
-- has none.
pub sm_next-Arrow_iff :
    (s : NegState) (e : NegEvent) (t : NegState)
    → s ≢ t
    → (sm_next s e ≡ t) ↔ (Arrow s e t ⊎ ((s ≡ verified) × (e ≡ terminate) × (t ≡ terminated)))
sm_next-Arrow_iff s e t h =
    (λ p. subst (Move s e) p (moved s e (λ q. h (q ∙ p))), λ a. Move-sm_next a)

-- An event never takes a negotiation back.
pub rank-sm_next : (s : NegState) (e : NegEvent) → rank s ≤ rank (sm_next s e)
unfolding sm_next
rank-sm_next s e = ground arith

-- A state past VERIFIED is kept on every event.
final-sm_next : (s : NegState) (e : NegEvent) → 5 ≤ rank s → sm_next s e ≡ s
unfolding sm_next
final-sm_next s e h = ground arith

-- Over any sequence of events a negotiation never goes back, and one that is finalized or terminated
-- keeps its state.
sm_run_monotone :
    (s : NegState) (es : List NegEvent)
    → (rank s ≤ rank (sm_run s es)) × ((rank s < 5) ⊎ (sm_run s es ≡ s))
sm_run_monotone s [] = (omega arith, inr refl)
sm_run_monotone s (e ∷ es) =
    let (up, cases) = sm_run_monotone (sm_next s e) es in
    let step = rank-sm_next s e in
    elim cases [
      | inl low ↦ (omega arith, inl (omega arith))
      | inr kept ↦ (
        omega arith,
        elim (dec_lt (rank s) 5) [
          | yes low ↦ inl low
          | no high ↦ inr (kept ∙ final-sm_next s e (omega arith))
        ],
      )
    ]
