-- ===== src/Wifi/History.antt =====
-- What holds of the connection manager after any history of calls and events.
use dsp_embedded.Prelude.{
  ℕ, ◌≤◌, ◌<◌, ◌≡◌, refl, sym, subst, Bool, true, false, List, [], ◌∷◌, arith, Bool-cases, inl, inr,
  not, &&-true, ◌&&◌, if◌then◌else◌,
}
use dsp_embedded.Esp.{EspErr}
use dsp_embedded.Wifi.{
  WifiState, idle, connecting, connected, disconnected, reconnecting, failed, WifiInput, sm_next,
  connect_input, connected_input, disconnected_input, retry_input, disconnect_input, Wifi, emit,
  enter, apply_transition, retry_timer_cb, Notice, sta_start, sta_disconnected, got_ip, another,
  wifi_event_handler, connect, disconnect, set_event_cb, initialised, same_state, is_disconnect,
  WifiEvent, evt_connected, evt_failed, evt_reconnecting, evt_disconnected, start_timer, logged,
  WifiAction, wifi_connects, wifi_stops, timer_stops, wifi_starts, is_idle,
}

-- What the application calls and the system delivers. The timer fires only while it runs.
pub data WifiCall : Type 0 where
  connects : EspErr → WifiCall
  disconnects : WifiCall
  sets_cb : Bool → WifiCall
  notices : Notice → WifiCall
  fires : WifiCall

unfoldable pub step : Wifi → WifiCall → Wifi
step w (connects started) = (connect w started).1
step w disconnects = disconnect w
step w (sets_cb cb) = set_event_cb w cb
step w (notices n) = wifi_event_handler w n
step w fires = if w.armed then retry_timer_cb w else w

unfoldable pub run : Wifi → List WifiCall → Wifi
run w [] = w
run w (c ∷ cs) = run (step w c) cs

-- The counter against the limit, in each state.
abbrev pub Counted : WifiState → ℕ → ℕ → Type 0
Counted disconnected retry max = ⊥
Counted failed retry max = retry ≡ max
Counted _ retry max = retry < max

-- A manager that waits for the timer has it running.
abbrev pub Waits : WifiState → Bool → Type 0
Waits reconnecting armed = armed ≡ true
Waits _ armed = Unit {0}

pub record IsValid (max : ℕ) (w : Wifi) : Type 0 where
  pub counted : Counted w.state w.retry max
  pub waits : Waits w.state w.armed
  pub limit : w.max_retry ≡ max

sm_next-Counted :
    (s : WifiState) (i : WifiInput) (retry max : ℕ)
    → 1 ≤ max
    → Counted s retry max
    → Counted (sm_next s i retry max).0 (sm_next s i retry max).1 max
unfolding sm_next
sm_next-Counted _ disconnect_input retry max one c = omega arith
sm_next-Counted idle connect_input retry max one c = omega arith
sm_next-Counted idle connected_input retry max one c = c
sm_next-Counted idle disconnected_input retry max one c = c
sm_next-Counted idle retry_input retry max one c = c
sm_next-Counted connecting connect_input retry max one c = c
sm_next-Counted connecting connected_input retry max one c = omega arith
sm_next-Counted connecting disconnected_input retry max one c = ground arith
sm_next-Counted connecting retry_input retry max one c = c
sm_next-Counted connected connect_input retry max one c = c
sm_next-Counted connected connected_input retry max one c = c
sm_next-Counted connected disconnected_input retry max one c = ground arith
sm_next-Counted connected retry_input retry max one c = c
sm_next-Counted reconnecting connect_input retry max one c = c
sm_next-Counted reconnecting connected_input retry max one c = omega arith
sm_next-Counted reconnecting disconnected_input retry max one c = ground arith
sm_next-Counted reconnecting retry_input retry max one c = c
sm_next-Counted failed connect_input retry max one c = c
sm_next-Counted failed connected_input retry max one c = c
sm_next-Counted failed disconnected_input retry max one c = c
sm_next-Counted failed retry_input retry max one c = c
sm_next-Counted disconnected connect_input retry max one c = absurd c
sm_next-Counted disconnected connected_input retry max one c = absurd c
sm_next-Counted disconnected disconnected_input retry max one c = absurd c
sm_next-Counted disconnected retry_input retry max one c = absurd c

same_state-eq : (s t : WifiState) → same_state s t ≡ true → s ≡ t
same_state-eq s t h = ground arith

either-IsValid :
    (max : ℕ) (b : Bool) {w u : Wifi}
    → IsValid max w
    → IsValid max u
    → IsValid max (if b then w else u)
either-IsValid max true v v' = v
either-IsValid max false v v' = v'

-- To send an event changes nothing that the invariant is about.
emit-IsValid : (max : ℕ) (evt : WifiEvent) (w : Wifi) → IsValid max w → IsValid max (emit evt w)
unfolding emit
emit-IsValid max evt w v =
    either-IsValid max w.has_cb (record { counted = v.counted; waits = v.waits; limit = v.limit }) v

waiting-IsValid :
    (max : ℕ) (u : Wifi)
    → u.max_retry ≡ max
    → Counted reconnecting u.retry max
    → IsValid max (start_timer (emit evt_reconnecting (record u { state = reconnecting })))
unfolding emit
waiting-IsValid max u l c = elim (Bool-cases u.has_cb) [
  | inl h ↦ rw (h, emit) (record { counted = c; waits = refl; limit = l })
  | inr h ↦ rw (h, emit) (record { counted = c; waits = refl; limit = l })
]

-- To enter a state sends events and may start the timer.
enter-IsValid :
    (max : ℕ) (s : WifiState) (w : Wifi)
    → w.max_retry ≡ max
    → Counted s w.retry max
    → IsValid max (enter s (record w { state = s }))
unfolding enter
enter-IsValid max idle w l c = record { counted = c; waits = tt; limit = l }
enter-IsValid max connecting w l c = record { counted = c; waits = tt; limit = l }
enter-IsValid max disconnected w l c = absurd c
enter-IsValid max connected w l c =
    emit-IsValid max evt_connected (record w { state = connected })
      (record { counted = c; waits = tt; limit = l })
enter-IsValid max failed w l c =
    emit-IsValid max evt_failed (record w { state = failed })
      (record { counted = c; waits = tt; limit = l })
enter-IsValid max reconnecting w l c = waiting-IsValid max w l c

settled-IsValid :
    (max : ℕ) (w : Wifi) (quiet : Bool) (next : WifiState) (retry : ℕ)
    → Counted next retry max
    → w.max_retry ≡ max
    → (same_state next w.state ≡ true → Waits next w.armed)
    → IsValid max (
        if same_state next w.state && quiet
        then record w { retry = retry }
        else enter next (record w { retry = retry; state = next }))
settled-IsValid max w quiet next retry c l keep =
    elim (Bool-cases (same_state next w.state && quiet)) [
      | inl same ↦
          let e = same_state-eq next w.state (&&-true (same_state next w.state) quiet same).0 in
          rw same (record {
            counted = subst (λ s. Counted s retry max) e c;
            waits =
                subst (λ s. Waits s w.armed) e
                  (keep (&&-true (same_state next w.state) quiet same).0);
            limit = l;
          })
      | inr other ↦ rw other (enter-IsValid max next (record w { retry = retry }) l c)
    ]

-- A transition on a valid manager, whose timer may just have stopped.
transition-IsValid :
    (max : ℕ) (w : Wifi) (i : WifiInput)
    → 1 ≤ max
    → Counted w.state w.retry max
    → w.max_retry ≡ max
    → (same_state (sm_next w.state i w.retry w.max_retry).0 w.state ≡ true
        → Waits (sm_next w.state i w.retry w.max_retry).0 w.armed)
    → IsValid max (apply_transition w i)
unfolding apply_transition
transition-IsValid max w i one c l keep =
    let next = sm_next w.state i w.retry w.max_retry in
    settled-IsValid max w (not (is_disconnect i)) next.0 next.1
      (subst (λ m. Counted (sm_next w.state i w.retry m).0 (sm_next w.state i w.retry m).1 max)
        (sym l) (sm_next-Counted w.state i w.retry max one c))
      l keep

-- The usual case: the timer is as it was.
input-IsValid :
    (max : ℕ) (w : Wifi) (i : WifiInput)
    → 1 ≤ max
    → IsValid max w
    → IsValid max (apply_transition w i)
input-IsValid max w i one v = transition-IsValid max w i one v.counted v.limit (λ e.
    subst (λ s. Waits s w.armed)
      (sym (same_state-eq (sm_next w.state i w.retry w.max_retry).0 w.state e)) v.waits)

retry-Waits :
    (s : WifiState) (retry max : ℕ) (b : Bool)
    → same_state (sm_next s retry_input retry max).0 s ≡ true
    → Waits (sm_next s retry_input retry max).0 b
unfolding sm_next
retry-Waits idle retry max b e = tt
retry-Waits connecting retry max b e = tt
retry-Waits connected retry max b e = tt
retry-Waits disconnected retry max b e = absurd (cc)
retry-Waits reconnecting retry max b e = absurd (cc)
retry-Waits failed retry max b e = tt

retry_timer_cb-IsValid :
    (max : ℕ) (w : Wifi) → 1 ≤ max → IsValid max w → IsValid max (retry_timer_cb w)
unfolding retry_timer_cb
retry_timer_cb-IsValid max w one v =
    transition-IsValid max (record w { armed = false; log = wifi_connects ∷ w.log }) retry_input one
      v.counted v.limit (retry-Waits w.state w.retry w.max_retry false)

disconnect-IsValid : (max : ℕ) (w : Wifi) → 1 ≤ max → IsValid max w → IsValid max (disconnect w)
unfolding disconnect sm_next
disconnect-IsValid max w one v =
    transition-IsValid max (record w { armed = false; log = wifi_stops ∷ timer_stops ∷ w.log })
      disconnect_input one v.counted v.limit (λ e. tt)

logged-IsValid : (max : ℕ) (a : WifiAction) (w : Wifi) → IsValid max w → IsValid max (logged a w)
logged-IsValid max a w v = record { counted = v.counted; waits = v.waits; limit = v.limit }

connect-IsValid :
    (max : ℕ) (w : Wifi) (started : EspErr)
    → 1 ≤ max
    → IsValid max w
    → IsValid max (connect w started).1
unfolding connect
connect-IsValid max w started one v = elim (Bool-cases (is_idle w.state)) [
  | inl h ↦
      rw (h, connect)
        (logged-IsValid max wifi_starts (apply_transition w connect_input)
          (input-IsValid max w connect_input one v))
  | inr h ↦ rw (h, connect) v
]

step-IsValid :
    (max : ℕ) (w : Wifi) (c : WifiCall) → 1 ≤ max → IsValid max w → IsValid max (step w c)
unfolding step set_event_cb wifi_event_handler
step-IsValid max w (connects started) one v = connect-IsValid max w started one v
step-IsValid max w disconnects one v = disconnect-IsValid max w one v
step-IsValid max w (sets_cb cb) one v = record {
  counted = v.counted;
  waits = v.waits;
  limit = v.limit;
}
step-IsValid max w (notices sta_start) one v = logged-IsValid max wifi_connects w v
step-IsValid max w (notices sta_disconnected) one v =
    input-IsValid max (emit evt_disconnected w) disconnected_input one
      (emit-IsValid max evt_disconnected w v)
step-IsValid max w (notices got_ip) one v = input-IsValid max w connected_input one v
step-IsValid max w (notices another) one v = v
step-IsValid max w fires one v = either-IsValid max w.armed (retry_timer_cb-IsValid max w one v) v

steps-IsValid :
    (max : ℕ) (cs : List WifiCall) (w : Wifi) → 1 ≤ max → IsValid max w → IsValid max (run w cs)
unfolding run
steps-IsValid max [] w one v = v
steps-IsValid max (c ∷ cs) w one v =
    steps-IsValid max cs (step w c) one (step-IsValid max w c one v)

-- After initialisation with a limit that is not 0 and any calls, events and firings of the timer, the
-- state is never DISCONNECTED, the retry counter is below the limit (and equal to it in FAILED), and
-- a manager in RECONNECTING has its timer running, so that it is never stuck there.
pub wifi_run-IsValid :
    (max : ℕ) (cb : Bool) (cs : List WifiCall) → 1 ≤ max → IsValid max (run (initialised max cb) cs)
wifi_run-IsValid max cb cs one =
    steps-IsValid max cs (initialised max cb) one
      (record { counted = omega arith; waits = tt; limit = refl })
