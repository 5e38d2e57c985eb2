-- ===== src/Telemetry/Transitions/Counts.antt =====
-- The lines of the connection and the number of reconnects over a run of the program.
use no_cap_kvm.Prelude.{
  ℕ, ◌+◌, ◌-◌, Bool, true, false, ◌&&◌, not, List, [], ◌∷◌, ◌++◌, ◌≡◌, refl, ltb, arith,
}
use no_cap_kvm.Prelude.Bytes.{u32}
use no_cap_kvm.Discovery.Connection.{ConnectionState, is_connected}
use no_cap_kvm.App.RetryBackoff.{track_reconnect}
use no_cap_kvm.Telemetry.Transitions.{
  Line, window_shown, window_hidden, connection_established, connection_dropped,
  connection_state_changed, Telemetry, initial, Frame, conn_state, window_lines, connection_lines,
  pump_telemetry,
}

abbrev pub established : List Line → ℕ
established [] = 0
established (connection_established state ∷ lines) = 1 + established lines
established (connection_dropped state ∷ lines) = established lines
established (connection_state_changed state ∷ lines) = established lines
established (window_shown ∷ lines) = established lines
established (window_hidden ∷ lines) = established lines

abbrev pub dropped : List Line → ℕ
dropped [] = 0
dropped (connection_established state ∷ lines) = dropped lines
dropped (connection_dropped state ∷ lines) = 1 + dropped lines
dropped (connection_state_changed state ∷ lines) = dropped lines
dropped (window_shown ∷ lines) = dropped lines
dropped (window_hidden ∷ lines) = dropped lines

abbrev pub as_number : Bool → ℕ
as_number true = 1
as_number false = 0

-- The frames so far, the latest first: the state after them, and the lines that they logged.
unfoldable pub run : List Frame → Telemetry × List Line
run [] = (initial, [])
run (f ∷ frames) =
    let before = run frames in let next = pump_telemetry before.0 f in (next.0, before.1 ++ next.1)

established-append : (xs ys : List Line) → established (xs ++ ys) ≡ established xs + established ys
established-append [] ys = omega arith
established-append (connection_established s ∷ xs) ys = omega (arith, established-append xs ys)
established-append (connection_dropped s ∷ xs) ys = established-append xs ys
established-append (connection_state_changed s ∷ xs) ys = established-append xs ys
established-append (window_shown ∷ xs) ys = established-append xs ys
established-append (window_hidden ∷ xs) ys = established-append xs ys

dropped-append : (xs ys : List Line) → dropped (xs ++ ys) ≡ dropped xs + dropped ys
dropped-append [] ys = omega arith
dropped-append (connection_established s ∷ xs) ys = dropped-append xs ys
dropped-append (connection_dropped s ∷ xs) ys = omega (arith, dropped-append xs ys)
dropped-append (connection_state_changed s ∷ xs) ys = dropped-append xs ys
dropped-append (window_shown ∷ xs) ys = dropped-append xs ys
dropped-append (window_hidden ∷ xs) ys = dropped-append xs ys

-- A line of the connection is logged on each edge, and on no other frame.
connection_lines_lem :
    (last now : ConnectionState)
    → (established (connection_lines last now)
        ≡ as_number (is_connected now && not (is_connected last)))
      × (dropped (connection_lines last now)
          ≡ as_number (is_connected last && not (is_connected now)))
unfolding connection_lines
connection_lines_lem last now = ground arith

window_lines_lem :
    (last visible : Bool)
    → (established (window_lines last visible) ≡ 0) × (dropped (window_lines last visible) ≡ 0)
unfolding window_lines
window_lines_lem true true = (refl, refl)
window_lines_lem true false = (refl, refl)
window_lines_lem false true = (refl, refl)
window_lines_lem false false = (refl, refl)

-- What the lines and the state say of each other.
pub record Agree (state : ConnectionState) (ever : Bool) (count e d : ℕ) : Type 0 where
  pub balance : e ≡ d + as_number (is_connected state)
  pub ever_same : ever ≡ ltb 0 e
  pub count_same : count ≡ u32 (e - 1)

track_reconnect_lem :
    (was is ever : Bool) (count e d : ℕ)
    → e ≡ d + as_number was
    → ever ≡ ltb 0 e
    → count ≡ u32 (e - 1)
    → let e' = e + as_number (is && not was) in
      (e' ≡ d + as_number (was && not is) + as_number is)
      × ((track_reconnect was is ever count).0 ≡ ltb 0 e')
      × ((track_reconnect was is ever count).1 ≡ u32 (e' - 1))
unfolding track_reconnect
track_reconnect_lem true true ever count e d b v c = ground arith
track_reconnect_lem true false ever count e d b v c = ground arith
track_reconnect_lem false true true count e d b v c = ground arith
track_reconnect_lem false true false count e d b v c = ground arith
track_reconnect_lem false false ever count e d b v c = ground arith

-- The log and the counter of the status panel agree: over any run of frames, as many connections were
-- logged as established as were logged as dropped, and one more while connected; and the number of
-- reconnects is one less than that of the connections established, as a uint32_t.
pub run-Agree :
    (frames : List Frame)
    → Agree
        (run frames).0.last_connection_state
        (run frames).0.ever_connected
        (run frames).0.reconnect_count
        (established (run frames).1)
        (dropped (run frames).1)
unfolding run pump_telemetry
run-Agree [] = record { balance = omega arith; ever_same = refl; count_same = refl }
run-Agree (f ∷ frames) =
    let before = run frames in
    let agree = run-Agree frames in
    let last = before.0.last_connection_state in
    let now = conn_state f in
    let windows = window_lines before.0.last_window_visible f.window_visible in
    let quiet = window_lines_lem before.0.last_window_visible f.window_visible in
    let edges = connection_lines_lem last now in
    let lines = connection_lines last now in
    let e : established (before.1 ++ (windows ++ lines))
        ≡ established before.1 + as_number (is_connected now && not (is_connected last)) =
      omega
        (arith, established-append before.1 (windows ++ lines), established-append windows lines) in
    let d : dropped (before.1 ++ (windows ++ lines))
        ≡ dropped before.1 + as_number (is_connected last && not (is_connected now)) =
      omega (arith, dropped-append before.1 (windows ++ lines), dropped-append windows lines) in
    let tracked =
      track_reconnect_lem (is_connected last) (is_connected now) before.0.ever_connected
        before.0.reconnect_count (established before.1) (dropped before.1) agree.balance
        agree.ever_same agree.count_same in
    record {
      balance = rw (e, d) tracked.0;
      ever_same = rw e tracked.1;
      count_same = rw e tracked.2;
    }
