-- ===== src/Wifi/Tests.antt =====
-- dsp_wifi at concrete inputs.
use dsp_embedded.Prelude.{◌≡◌, ◌≤◌, ◌+◌, ◌↔◌, refl, true, List, [], ◌∷◌, arith}
use dsp_embedded.Esp.{ok}
use dsp_embedded.Wifi.{
  connected, failed, WifiInput, disconnected_input, retry_input, sm_next, got_ip, sta_disconnected,
  initialised, emit, enter, apply_transition, connect, retry_timer_cb, wifi_event_handler,
}
use dsp_embedded.Wifi.Machine.{sm_run, losses, sm_run-failed_iff}
use dsp_embedded.Wifi.History.{
  WifiCall, connects, notices, fires, step, run, IsValid, wifi_run-IsValid,
}

abbrev futile : List WifiInput
futile = disconnected_input ∷ retry_input ∷ disconnected_input ∷ []

sm_run-failed_iff_example : ((sm_run (connected, 1) 3 futile).0 ≡ failed) ↔ (3 ≤ 1 + losses futile)
sm_run-failed_iff_example =
    sm_run-failed_iff futile connected 1 3 tt (omega arith) (tt, (tt, (tt, tt)))

-- The link comes up, is lost, is retried by the timer and lost again.
abbrev calls : List WifiCall
calls =
    connects ok ∷ notices got_ip ∷ notices sta_disconnected ∷ fires ∷ notices sta_disconnected ∷ []

test_gives_up : (run (initialised 2 true) calls).state ≡ failed
unfolding run step connect wifi_event_handler retry_timer_cb apply_transition enter emit sm_next
test_gives_up = refl

wifi_run-IsValid_example : IsValid 2 (run (initialised 2 true) calls)
wifi_run-IsValid_example = wifi_run-IsValid 2 true calls (omega arith)
