-- ===== src/Wifi.antt =====
-- components/dsp_wifi/dsp_wifi.c and include/dsp_wifi.h: the connection manager. The static state is a
-- record; `armed` says that the one-shot reconnect timer is running in esp_timer, where starting a
-- running timer is refused and leaves it running. The calls that leave the module (the driver's and
-- the application's callback) are a log, the last one in front. The retry counter, an
-- `int`, is a natural number here.
use dsp_embedded.Prelude.{
  ℕ, zero, suc, ◌+◌, Bool, true, false, not, ◌&&◌, List, [], ◌∷◌, if◌then◌else◌, leb,
}
use dsp_embedded.Esp.{EspErr, invalid_state}
pub mod Machine
pub mod History
mod Tests

-- `dsp_wifi_state_t`.
pub data WifiState : Type 0 where
  idle connecting connected disconnected reconnecting failed : WifiState

-- `dsp_wifi_input_t`.
pub data WifiInput : Type 0 where
  connect_input connected_input disconnected_input retry_input disconnect_input : WifiInput

-- `dsp_wifi_event_t`.
pub data WifiEvent : Type 0 where
  evt_connected evt_disconnected evt_reconnecting evt_failed : WifiEvent

-- A disconnect is counted, and is one too many where the count reaches the limit.
abbrev pub count_or_fail : ℕ → ℕ → WifiState → WifiState × ℕ
count_or_fail retry max next =
    if leb max (retry + 1) then (failed, retry + 1) else (next, retry + 1)

-- `dsp_wifi_sm_next`, which returns the state and the counter; the third argument is the counter, the
-- fourth the limit.
pub sm_next : WifiState → WifiInput → ℕ → ℕ → WifiState × ℕ
sm_next _ disconnect_input retry max = (idle, 0)
sm_next idle connect_input retry max = (connecting, 0)
sm_next idle connected_input retry max = (idle, retry)
sm_next idle disconnected_input retry max = (idle, retry)
sm_next idle retry_input retry max = (idle, retry)
sm_next connecting connected_input retry max = (connected, 0)
sm_next connecting disconnected_input retry max = count_or_fail retry max reconnecting
sm_next connecting connect_input retry max = (connecting, retry)
sm_next connecting retry_input retry max = (connecting, retry)
sm_next connected disconnected_input retry max = count_or_fail retry max reconnecting
sm_next connected connect_input retry max = (connected, retry)
sm_next connected connected_input retry max = (connected, retry)
sm_next connected retry_input retry max = (connected, retry)
sm_next reconnecting retry_input retry max = (connecting, retry)
sm_next reconnecting connected_input retry max = (connected, 0)
sm_next reconnecting disconnected_input retry max = count_or_fail retry max reconnecting
sm_next reconnecting connect_input retry max = (reconnecting, retry)
sm_next failed connect_input retry max = (failed, retry)
sm_next failed connected_input retry max = (failed, retry)
sm_next failed disconnected_input retry max = (failed, retry)
sm_next failed retry_input retry max = (failed, retry)
sm_next disconnected retry_input retry max = (connecting, retry)
sm_next disconnected connect_input retry max = (disconnected, retry)
sm_next disconnected connected_input retry max = (disconnected, retry)
sm_next disconnected disconnected_input retry max = (disconnected, retry)

-- A call that leaves the module.
pub data WifiAction : Type 0 where
  emits : WifiEvent → WifiAction
  wifi_connects wifi_starts wifi_stops timer_starts timer_stops : WifiAction

pub record Wifi : Type 0 where
  pub state : WifiState
  pub retry : ℕ
  pub max_retry : ℕ
  pub has_cb : Bool
  pub armed : Bool
  pub log : List WifiAction

abbrev pub logged : WifiAction → Wifi → Wifi
logged a w = record w { log = a ∷ w.log }

pub emit : WifiEvent → Wifi → Wifi
emit evt w = if w.has_cb then logged (emits evt) w else w

abbrev pub same_state : WifiState → WifiState → Bool
same_state idle idle = true
same_state connecting connecting = true
same_state connected connected = true
same_state disconnected disconnected = true
same_state reconnecting reconnecting = true
same_state failed failed = true
same_state _ _ = false

abbrev pub is_disconnect : WifiInput → Bool
is_disconnect disconnect_input = true
is_disconnect _ = false

-- `esp_timer_start_once` on the reconnect timer.
abbrev pub start_timer : Wifi → Wifi
start_timer w = logged timer_starts (record w { armed = true })

-- The switch of `apply_transition`, on the state that was entered.
pub enter : WifiState → Wifi → Wifi
unfolding emit
enter connected w = emit evt_connected w
enter reconnecting w = start_timer (emit evt_reconnecting w)
enter failed w = emit evt_failed w
enter _ w = w

-- `apply_transition`. The counter is written by the machine even if the state stays.
pub apply_transition : Wifi → WifiInput → Wifi
apply_transition w input =
    let (next, retry) = sm_next w.state input w.retry w.max_retry in
    let counted = record w { retry = retry } in
    if same_state next w.state && not (is_disconnect input)
    then counted
    else enter next (record counted { state = next })

-- `retry_timer_cb`, when the timer fires.
pub retry_timer_cb : Wifi → Wifi
retry_timer_cb w = apply_transition (logged wifi_connects (record w { armed = false })) retry_input

-- The events that `wifi_event_handler` tells apart.
pub data Notice : Type 0 where
  sta_start sta_disconnected got_ip another : Notice

pub wifi_event_handler : Wifi → Notice → Wifi
wifi_event_handler w sta_start = logged wifi_connects w
wifi_event_handler w sta_disconnected =
    apply_transition (emit evt_disconnected w) disconnected_input
wifi_event_handler w got_ip = apply_transition w connected_input
wifi_event_handler w another = w

abbrev pub is_idle : WifiState → Bool
is_idle s = same_state s idle

-- `dsp_wifi_connect`, with the result of `esp_wifi_start`.
pub connect : Wifi → EspErr → EspErr × Wifi
connect w started =
    if not (is_idle w.state)
    then (invalid_state, w)
    else (started, logged wifi_starts (apply_transition w connect_input))

-- `dsp_wifi_disconnect`.
pub disconnect : Wifi → Wifi
disconnect w =
    apply_transition (logged wifi_stops (logged timer_stops (record w { armed = false })))
      disconnect_input

-- `dsp_wifi_set_event_cb`; the argument says whether the callback is not NULL.
pub set_event_cb : Wifi → Bool → Wifi
set_event_cb w cb = record w { has_cb = cb }

-- What `dsp_wifi_init` leaves, with the limit that it has chosen.
abbrev pub initialised : ℕ → Bool → Wifi
initialised max cb = record {
  state = idle;
  retry = 0;
  max_retry = max;
  has_cb = cb;
  armed = false;
  log = [];
}
