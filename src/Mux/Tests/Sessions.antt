-- ===== src/Mux/Tests/Sessions.antt =====
-- The theorems on a whole mux at concrete ones.
use nat_punch.Base.{
  ℕ, ◌≡◌, ◌≢◌, refl, arith, true, false, none, some, List, [], ◌∷◌, length, All, ◌⊎◌, some_unique,
}
use nat_punch.Base.Int.{pos, ◌+ℤ◌}
use nat_punch.Mux.ConnMap.{get, get_id, next}
use nat_punch.Mux.Frame.{Packager, set, has_content, mux_new_msg}
use nat_punch.Mux.Priority
use nat_punch.Mux.Conn.{new_conn, close_windows}
use nat_punch.Mux.Session.{
  Session, new, at, send_info, close_process, close_conn, close, snapshot, read_frame, open_conn,
}
use nat_punch.Mux.Session.Rest.{Ended, Open, Closed}
use nat_punch.Mux.Session.Sweep.{In}
use nat_punch.Mux.Session.Reach.{Sound}
use nat_punch.Mux.Session.Quiet.{close-Closes}
use nat_punch.Mux.Session.Traffic.{Act, opening, closing, closing_mux, accepting, act, run}
use nat_punch.Mux.Session.Runs.{run-Sound, new-Sound, run-Ended}
use nat_punch.Mux.Session.Isolation.{Apart, read_frame-Apart}

abbrev mux : Session
mux = new false (pos 0)

-- The application opens two connections and closes the first.
abbrev opened_and_closed : List Act
opened_and_closed = opening ∷ opening ∷ closing 0 ∷ []

opened_and_closed-is_close : (at (run [] opened_and_closed mux) 0).is_close ≡ true
unfolding run act open_conn get_id next new close_conn close_process send_info set has_content
    Priority.push Priority.new new_conn close_windows Priority.lane_of ◌+ℤ◌
opened_and_closed-is_close = refl

abbrev later : List Act
later = accepting ∷ closing 0 ∷ closing_mux ∷ []

run-Ended_example :
    ((run [] later (run [] opened_and_closed mux)).blocked ≡ false)
    × (Open (run [] later (run [] opened_and_closed mux))
        ⊎ Closed (run [] later (run [] opened_and_closed mux)))
    × (((at (run [] opened_and_closed mux) 0).is_close ≡ false)
        ⊎ Ended (at (run [] later (run [] opened_and_closed mux)) 0))
    × (Closed (run [] opened_and_closed mux)
        ⊎ All
            (λ q. Ended (at (run [] later (close [] (run [] opened_and_closed mux))) q))
            (snapshot [] (run [] opened_and_closed mux)))
run-Ended_example = run-Ended false (pos 0) [] opened_and_closed later 0

-- Two connections.
unfoldable two : Session
two = run [] (opening ∷ opening ∷ []) mux

two-Sound : Sound (λ r. ⊥) two
unfolding two
two-Sound = run-Sound (λ r. ⊥) [] (opening ∷ opening ∷ []) mux (new-Sound false (pos 0))

two-Open : Open two
unfolding two run act open_conn get_id next new close_conn close_process send_info set has_content
    Priority.push Priority.new new_conn Priority.lane_of ◌+ℤ◌
two-Open = (refl, refl)

close-Closes_example :
    Closed (close [] two)
    × ((r : ℕ) → In r (snapshot [] two) → Ended (at (close [] two) r))
    × ((close [] two).write_queue ≡ two.write_queue)
    × ((close [] two).blocked ≡ false)
close-Closes_example = close-Closes [] two (two-Sound.0) two-Open

two-length : length two.objects ≡ 2
unfolding two run act open_conn get_id next new close_conn close_process send_info set has_content
    Priority.push Priority.new new_conn Priority.lane_of ◌+ℤ◌
two-length = refl

-- The first connection has number 1, and the frame is for number 2.
abbrev message : Packager
message = record { flag = mux_new_msg; id = 2; window = 0; length = 1; content = 9 ∷ [] }

two-first : get 2 two.conn_map ≢ some 0
unfolding two run act open_conn get_id next new close_conn close_process send_info set has_content
    Priority.push Priority.new new_conn Priority.lane_of ◌+ℤ◌
two-first e =
    let second : get 2 two.conn_map ≡ some 1 = refl in absurd (omega (arith, some_unique second e))

read_frame-Apart_example : Apart 0 two (read_frame [] none message two)
read_frame-Apart_example =
    read_frame-Apart [] 0 (λ r. ⊥) none message two two-Sound (omega (arith, two-length)) two-first
