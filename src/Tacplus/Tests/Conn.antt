-- ===== src/Tacplus/Tests/Conn.antt =====
-- Runs of the connection of pkg/public/tacplus/conn.go.
use tacacs_plus_go.Tacplus.Tests.{config, packet_0}
use tacacs_plus_go.Tacplus.Conn.{
  Conn, Event, close_request, closes_conn, conn_done, fired, new_conn, new_session, packet_in, run,
  takes_packet, timer_fires,
}
use tacacs_plus_go.Tacplus.Conn.Serve.{Sound, new_session_cases, run-Sound}
use tacacs_plus_go.Tacplus.Conn.Table.{IsTable}
use tacacs_plus_go.Tacplus.Conn.Invariant.{IsValid}
use tacacs_plus_go.Tacplus.Framing.{Network, cut, read_raw}
use tacacs_plus_go.Tacplus.Framing.Chunks.{NoErrors, bytes_of, read_raw-bytes_of, stream}
use tacacs_plus_go.Base.{
  List, [], arith, connection_closed, drop, err, false, inr, length, mux_not_supported, none, ok,
  refl, session_id_in_use, some, take, true, ◌++◌, ◌↔◌, ◌∷◌, ◌≡◌, ◌≢◌,
}
use tacacs_plus_go.Base.Store.{find}
use tacacs_plus_go.Tacplus.Crypt.{Raw, put_uint32}
use tacacs_plus_go.Tacplus.Packet.Args.{arg_bytes, arg_lengths}

-- A multiplexing connection on which two sessions come and go, the queue of one overflows, the idle
-- timer fires, and a packet comes too late.
abbrev events : List Event
events =
    packet_in (record packet_0 { flags = 4 })
    ∷ packet_in packet_0
    ∷ packet_in (record packet_0 { id = 8 })
    ∷ takes_packet 1
    ∷ close_request 1
    ∷ close_request 1
    ∷ timer_fires
    ∷ packet_in packet_0
    ∷ closes_conn
    ∷ conn_done
    ∷ []

run-Sound_example : Sound (run (new_conn config true) events)
run-Sound_example = run-Sound config true events

abbrev idle_conn : Conn
idle_conn = record (new_conn config true) { mux = true; check_mux = false; idle_t = fired }

idle_conn-IsValid : IsValid idle_conn
unfolding IsTable new_conn
idle_conn-IsValid = record {
  table = tt;
  timed = (inr (refl, refl), λ n q. ground arith, λ h. refl);
}

new_session_cases_example :
    let (r, c') = new_session idle_conn 9 in
    (r ≡ err mux_not_supported ↔ ((idle_conn.mux ≡ false) × (idle_conn.sess ≢ [])))
    × (r ≡ err session_id_in_use ↔ ((idle_conn.mux ≡ true) × (find 9 idle_conn.sess ≢ none)))
    × (r ≡ err connection_closed ↔ ((idle_conn.sess ≡ []) × (idle_conn.idle_t ≡ fired)))
    × (r ≡ ok (length idle_conn.heap) → find 9 c'.sess ≡ some (length idle_conn.heap))
    × (r ≢ ok (length idle_conn.heap) → c' ≡ idle_conn)
new_session_cases_example = new_session_cases idle_conn 9 idle_conn-IsValid

-- The request with its length, in three arrivals, and the first bytes of what follows.
abbrev framed : Raw
framed = record packet_0 { body_len = 43 }

abbrev arrivals : Network
arrivals =
    (take 5 (bytes_of framed), none)
    ∷ ([], none)
    ∷ (take 20 (drop 5 (bytes_of framed)), none)
    ∷ (drop 25 (bytes_of framed) ++ (0xc0 ∷ 1 ∷ []), none)
    ∷ []

read_raw-bytes_of_example :
    (net' : Network) × (read_raw true none arrivals ≡ (ok (bytes_of framed), net'))
    × (stream net' ≡ 0xc0 ∷ 1 ∷ [])
    × NoErrors net'
    × (cut (bytes_of framed) ≡ framed)
unfolding stream put_uint32 arg_lengths arg_bytes
read_raw-bytes_of_example =
    read_raw-bytes_of true framed arrivals (0xc0 ∷ 1 ∷ []) refl (omega arith) refl (omega arith)
      (refl, (refl, (refl, (refl, tt)))) refl
