-- ===== src/Wifi/Machine.antt =====
-- When the connection manager gives up.
use dsp_embedded.Prelude.{
  ℕ, suc, ◌+◌, ◌≤◌, ◌<◌, ◌≡◌, ◌≢◌, ◌↔◌, refl, ap, ◌∙◌, subst, List, [], ◌∷◌, arith, ◌⊎◌, inl, inr,
}
use dsp_embedded.Wifi.{
  WifiState, idle, connecting, connected, disconnected, reconnecting, failed, WifiInput,
  connect_input, connected_input, disconnected_input, retry_input, disconnect_input, sm_next,
}

abbrev pub sm_run : WifiState × ℕ → ℕ → List WifiInput → WifiState × ℕ
sm_run (s, retry) max [] = (s, retry)
sm_run (s, retry) max (i ∷ is) = sm_run (sm_next s i retry max) max is

-- The manager is up: it is connected, or trying to be.
abbrev pub IsUp : WifiState → Type 0
IsUp connecting = Unit {0}
IsUp connected = Unit {0}
IsUp reconnecting = Unit {0}
IsUp _ = ⊥

-- The link is lost or retried, but never comes up, and the user does not intervene.
abbrev pub IsFutile : WifiInput → Type 0
IsFutile disconnected_input = Unit {0}
IsFutile retry_input = Unit {0}
IsFutile _ = ⊥

abbrev pub AllFutile : List WifiInput → Type 0
AllFutile [] = Unit {0}
AllFutile (i ∷ is) = IsFutile i × AllFutile is

abbrev pub losses : List WifiInput → ℕ
losses [] = 0
losses (disconnected_input ∷ is) = suc (losses is)
losses (_ ∷ is) = losses is

failed-stays :
    (is : List WifiInput) (retry max : ℕ)
    → AllFutile is
    → (sm_run (failed, retry) max is).0 ≡ failed
unfolding sm_next
failed-stays [] retry max f = refl
failed-stays (disconnected_input ∷ is) retry max f = failed-stays is retry max f.1
failed-stays (retry_input ∷ is) retry max f = failed-stays is retry max f.1
failed-stays (connect_input ∷ is) retry max f = absurd f.0
failed-stays (connected_input ∷ is) retry max f = absurd f.0
failed-stays (disconnect_input ∷ is) retry max f = absurd f.0

-- What a futile input does to a manager that is up and has a retry left.
abbrev Goes : ℕ → ℕ → WifiInput → WifiState × ℕ → Type 0
Goes retry max disconnected_input r =
    (r.1 ≡ retry + 1) × (((max ≤ retry + 1) × (r.0 ≡ failed)) ⊎ ((retry + 1 < max) × IsUp r.0))
Goes retry max _ r = (r.1 ≡ retry) × IsUp r.0

sm_next-Goes :
    (s : WifiState) (i : WifiInput) (retry max : ℕ)
    → IsUp s
    → IsFutile i
    → Goes retry max i (sm_next s i retry max)
unfolding sm_next
sm_next-Goes connecting disconnected_input retry max u f = ground arith
sm_next-Goes connecting retry_input retry max u f = ground arith
sm_next-Goes connected disconnected_input retry max u f = ground arith
sm_next-Goes connected retry_input retry max u f = ground arith
sm_next-Goes reconnecting disconnected_input retry max u f = ground arith
sm_next-Goes reconnecting retry_input retry max u f = ground arith
sm_next-Goes _ connect_input retry max u f = absurd f
sm_next-Goes _ connected_input retry max u f = absurd f
sm_next-Goes _ disconnect_input retry max u f = absurd f
sm_next-Goes idle disconnected_input retry max u f = absurd u
sm_next-Goes idle retry_input retry max u f = absurd u
sm_next-Goes failed disconnected_input retry max u f = absurd u
sm_next-Goes failed retry_input retry max u f = absurd u
sm_next-Goes disconnected disconnected_input retry max u f = absurd u
sm_next-Goes disconnected retry_input retry max u f = absurd u

IsUp-failed : (s : WifiState) → IsUp s → s ≢ failed
IsUp-failed connecting u e = cc
IsUp-failed connected u e = cc
IsUp-failed reconnecting u e = cc
IsUp-failed idle u e = absurd u
IsUp-failed failed u e = absurd u
IsUp-failed disconnected u e = absurd u

-- The two outcomes of a futile sequence.
abbrev Ends : ℕ → ℕ → WifiState → Type 0
Ends n max s = ((max ≤ n) × (s ≡ failed)) ⊎ ((n < max) × IsUp s)

sm_run-Ends :
    (is : List WifiInput) (s : WifiState) (retry max : ℕ)
    → IsUp s
    → retry < max
    → AllFutile is
    → Ends (retry + losses is) max (sm_run (s, retry) max is).0
sm_run-Ends [] s retry max u h f = inr (omega arith, u)
sm_run-Ends (disconnected_input ∷ is) s retry max u h f =
    let r = sm_next s disconnected_input retry max in
    let (c, d) = sm_next-Goes s disconnected_input retry max u f.0 in
    elim d [
      | inl over ↦
          let stop = ap (λ t. (sm_run (t, r.1) max is).0) over.1 ∙ failed-stays is r.1 max f.1 in
          inl (omega arith, stop)
      | inr more ↦
          let ih = sm_run-Ends is r.0 r.1 max more.1 (omega arith) f.1 in
          subst (λ n. Ends n max (sm_run r max is).0) (omega arith) ih
    ]
sm_run-Ends (retry_input ∷ is) s retry max u h f =
    let r = sm_next s retry_input retry max in
    let (c, up) = sm_next-Goes s retry_input retry max u f.0 in
    let ih = sm_run-Ends is r.0 r.1 max up (omega arith) f.1 in
    subst (λ n. Ends n max (sm_run r max is).0) (omega arith) ih
sm_run-Ends (connect_input ∷ is) s retry max u h f = absurd f.0
sm_run-Ends (connected_input ∷ is) s retry max u h f = absurd f.0
sm_run-Ends (disconnect_input ∷ is) s retry max u h f = absurd f.0

-- From a state that is up, with retries left, and while the link never comes up, the machine reaches
-- FAILED exactly if the losses of the link, with those counted before, reach the limit.
pub sm_run-failed_iff :
    (is : List WifiInput) (s : WifiState) (retry max : ℕ)
    → IsUp s
    → retry < max
    → AllFutile is
    → ((sm_run (s, retry) max is).0 ≡ failed) ↔ (max ≤ retry + losses is)
sm_run-failed_iff is s retry max u h f = elim (sm_run-Ends is s retry max u h f) [
  | inl over ↦ (λ e. over.0, λ g. over.1)
  | inr more ↦
      (λ e. absurd (IsUp-failed (sm_run (s, retry) max is).0 more.1 e), λ g. absurd (omega arith))
]
