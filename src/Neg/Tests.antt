-- ===== src/Neg/Tests.antt =====
-- dsp_neg at concrete inputs.
use dsp_embedded.Prelude.{
  ◌≡◌, ◌⊎◌, refl, ◌↔◌, true, none, some, [], ◌∷◌, List, pos, inl, inr, Text, length,
}
use mathlib.Core.Option
use dsp_embedded.Neg.{
  NegEntry, Negotiations, requested, agreed, agree, fresh_entry, zero_entry, create, apply, slot,
  find_by_cpid, sm_next, boot, init, verified, terminated, terminate,
}
use dsp_embedded.Neg.Ledger.{request, state_of, notify, state_or_initial}
use dsp_embedded.Neg.Machine.{Arrow, sm_next-Arrow_iff}
use dsp_embedded.Neg.Refine.{contents, IsPacked, create_refines, event_refines}
use dsp_embedded.Neg.Lives.{LivesOn, run-LivesOn}
use dsp_embedded.Neg.Lifecycle.{
  NegCall, step, creates, applies, loads, initializes, run, IsValid, run-boot-IsValid,
}

abbrev urn_a : Text
urn_a = 97 ∷ 49 ∷ []

abbrev urn_b : Text
urn_b = 98 ∷ 50 ∷ []

abbrev first : NegEntry
first = fresh_entry urn_a urn_b

-- One negotiation and a free slot.
abbrev half : Negotiations
half = record { table = first ∷ zero_entry ∷ []; initialized = true }

half-IsPacked : IsPacked half.table
half-IsPacked = inl (refl, inr (refl, refl))

abbrev calls : List NegCall
calls = creates (some urn_b) (some urn_a) ∷ applies (pos 0) agree ∷ creates (some urn_a) none ∷ []

test_second : (create half (some urn_b) (some urn_a)).0 ≡ pos 1
unfolding create
test_second = refl

test_agree : (run half calls).table ≡ record first { state = agreed } ∷ fresh_entry urn_b urn_a ∷ []
unfolding run step create apply slot sm_next
test_agree = refl

sm_next-Arrow_iff_example : (sm_next requested agree ≡ agreed) ↔ (
    Arrow requested agree agreed
    ⊎ ((requested ≡ verified) × (agree ≡ terminate) × (agreed ≡ terminated)))
sm_next-Arrow_iff_example = sm_next-Arrow_iff requested agree agreed (λ e. absurd (cc))

create_refines_example :
    let (idx, m') = create half (some urn_b) (some urn_a) in
    let spec = request 2 (contents half.table) urn_b urn_a in
    (idx ≡ spec.0) × (contents m'.table ≡ spec.1) × IsPacked m'.table
create_refines_example = create_refines half urn_b urn_a half-IsPacked

event_refines_example :
    let (s, m') = apply half (find_by_cpid half (some urn_a)) agree in
    let l = contents half.table in
    (s ≡ state_or_initial (Option.map (λ t. sm_next t agree) (state_of l urn_a)))
    × (contents m'.table ≡ notify l urn_a agree)
    × IsPacked m'.table
    × (length m'.table ≡ length half.table)
event_refines_example = event_refines half urn_a agree half-IsPacked

run-boot-IsValid_example :
    IsValid 2 (run (boot 2) (initializes ∷ loads (pos 0) agreed (some urn_a) (some urn_b) ∷ []))
unfolding step init
run-boot-IsValid_example =
    run-boot-IsValid 2 (initializes ∷ loads (pos 0) agreed (some urn_a) (some urn_b) ∷ [])
      (tt, (inr refl, tt))

run-LivesOn_example : LivesOn first (run half calls).table 0
run-LivesOn_example = run-LivesOn calls half first 0 (tt, (tt, (tt, tt))) refl refl refl
