-- ===== src/Xfer/Machine.antt =====
-- The transfer state machine.
use dsp_embedded.Prelude.{
  ℕ, ◌≤◌, ◌≡◌, refl, ◌≢◌, ◌↔◌, ◌∙◌, subst, arith, ◌<◌, ◌⊎◌, inl, inr, List, [], ◌∷◌,
}
use native.Mathlib.Decide.{dec_lt}
use dsp_embedded.Xfer.{
  XferState, initial, transferring, completed, failed, XferEvent, start, complete, fail, sm_next,
}

-- The transitions that dsp_xfer.h documents with its events.
pub data XferArrow : XferState → XferEvent → XferState → Type 0 where
  starting : XferArrow initial start transferring
  completing : XferArrow transferring complete completed
  failing : XferArrow transferring fail failed

abbrev pub rank : XferState → ℕ
rank initial = 0
rank transferring = 1
rank completed = 2
rank failed = 2

abbrev pub sm_run : XferState → List XferEvent → XferState
sm_run s [] = s
sm_run s (e ∷ es) = sm_run (sm_next s e) es

XferArrow-sm_next : {s t : XferState} {e : XferEvent} → XferArrow s e t → sm_next s e ≡ t
unfolding sm_next
XferArrow-sm_next starting = refl
XferArrow-sm_next completing = refl
XferArrow-sm_next failing = refl

moved : (s : XferState) (e : XferEvent) → s ≢ sm_next s e → XferArrow s e (sm_next s e)
unfolding sm_next
moved initial start h = starting
moved initial complete h = absurd (h refl)
moved initial fail h = absurd (h refl)
moved transferring complete h = completing
moved transferring fail h = failing
moved transferring start h = absurd (h refl)
moved completed _ h = absurd (h refl)
moved failed _ h = absurd (h refl)

-- Between different states, `dsp_xfer_sm_next` takes `s` to `t` on an event exactly when dsp_xfer.h
-- documents that transition.
pub sm_next-XferArrow_iff :
    (s : XferState) (e : XferEvent) (t : XferState) → s ≢ t → (sm_next s e ≡ t) ↔ XferArrow s e t
sm_next-XferArrow_iff s e t h =
    (λ p. subst (XferArrow s e) p (moved s e (λ q. h (q ∙ p))), λ a. XferArrow-sm_next a)

-- A transfer that has ended keeps its state on every event.
ended-sm_next : (s : XferState) (e : XferEvent) → 2 ≤ rank s → sm_next s e ≡ s
unfolding sm_next
ended-sm_next s e h = ground arith

rank_up-sm_next : (s : XferState) (e : XferEvent) → rank s ≤ rank (sm_next s e)
unfolding sm_next
rank_up-sm_next s e = ground arith

-- Over any sequence of events a transfer never goes back, and one that is completed or failed keeps
-- its state.
xfer_run_monotone :
    (s : XferState) (es : List XferEvent)
    → (rank s ≤ rank (sm_run s es)) × ((rank s < 2) ⊎ (sm_run s es ≡ s))
xfer_run_monotone s [] = (omega arith, inr refl)
xfer_run_monotone s (e ∷ es) =
    let (up, cases) = xfer_run_monotone (sm_next s e) es in
    let step = rank_up-sm_next s e in
    elim cases [
      | inl low ↦ (omega arith, inl (omega arith))
      | inr kept ↦ (
        omega arith,
        elim (dec_lt (rank s) 2) [
          | yes low ↦ inl low
          | no high ↦ inr (kept ∙ ended-sm_next s e (omega arith))
        ],
      )
    ]
