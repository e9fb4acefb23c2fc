-- ===== src/Tacplus/Conn/Serve.antt =====
-- Every sequence of events keeps the invariant, and no operation panics (pkg/public/tacplus/conn.go).
use tacacs_plus_go.Base.Store.{find, get_elem?, set}
use tacacs_plus_go.Tacplus.Conn.Table.{IsTable, set_away-IsTable, set_open-IsTable}
use tacacs_plus_go.Tacplus.Conn.Invariant.{
  IsValid, Keeps, add_session-find, close_channels-open, close_session-Keeps, new_session-IsValid,
  process_settled-Keeps, settle_mux-IsValid,
}
use tacacs_plus_go.Tacplus.Conn.{
  Conn, Event, Serving, Sess, absent, after_case, cleanup, close_all, close_request, close_session,
  closes_conn, conn_done, crashed, end_serve, ended, fired, idle_expired, is_nil, new_conn,
  new_session, packet_in, process_packet, run, running, serving, session_request, settle_mux, step,
  stopped, takes, takes_packet, timer_fires,
}
use tacacs_plus_go.Base.{
  Bool, List, Option, [], arith, connection_closed, err, false, if◌then◌else◌, inl, length,
  mux_not_supported, none, not, ok, refl, session_id_in_use, some, true, ℕ, ◌&&◌, ◌↔◌, ◌∷◌, ◌≡◌,
  ◌≢◌,
}
use tacacs_plus_go.Tacplus.Session.{ConnConfig}

-- The connection's done channel is closed with every session of the map.
abbrev pub Sound : Serving → Type 0
Sound (serving c) = IsValid c
Sound (ended c) = c.done ≡ true
Sound crashed = ⊥

close_all-some :
    (m : List (ℕ × ℕ)) (heap : List Sess)
    → IsTable heap m
    → (out : List Sess) × (close_all m heap ≡ some out)
unfolding close_all IsTable
close_all-some [] heap t = (heap, refl)
close_all-some ((id, a) ∷ m) heap ((s, g, i, p, q), f, t) =
    let (out, e) =
      close_all-some m (set heap a (record s { done_closed = true; in_closed = true }))
        (set_away-IsTable heap a s _ g m (rw i f) t) in
    (out, rw (close_all, g, close_channels-open s p q) e)

cleanup-Sound : (c : Conn) → IsValid c → Sound (end_serve (cleanup c))
unfolding cleanup
cleanup-Sound c v = let (out, e) = close_all-some c.sess c.heap v.table in rw e refl

after_case-Sound : (o : Option Conn) → Keeps o → Sound (after_case o)
unfolding after_case
after_case-Sound none h = h
after_case-Sound (some c) h =
    elim (is_nil c.sess && not c.mux)
      as (λ b. Sound (if b then end_serve (cleanup c) else serving c)) [
        | true ↦ cleanup-Sound c h
        | false ↦ h
      ]

takes-IsValid : (c : Conn) (a : ℕ) → IsValid c → IsValid (takes c a)
unfolding takes
takes-IsValid c a v =
    elim (get_elem? c.heap a)
        as (λ o.
          get_elem? c.heap a ≡ o
          → IsValid (elim o [
            | none ↦ c
            | some s ↦ record c { heap = set c.heap a (record s { queue = none }) }
          ])) [
            | none ↦ λ h. v
            | some s ↦ λ h. record {
              table =
                  set_open-IsTable c.heap a s (record s { queue = none }) h refl refl refl c.sess
                    v.table;
              timed = v.timed;
            }
          ]
      refl

pub step-Sound : (c : Conn) (e : Event) → IsValid c → Sound (step c e)
unfolding step process_packet
step-Sound c (packet_in p) v =
    after_case-Sound (process_packet c p)
      (process_settled-Keeps (settle_mux c p) p (settle_mux-IsValid c p v))
step-Sound c (close_request a) v =
    elim (get_elem? c.heap a)
        as (λ o.
          get_elem? c.heap a ≡ o
          → Sound (elim o [ none ↦ serving c | some s ↦ after_case (close_session c a) ])) [
            | none ↦ λ h. v
            | some s ↦ λ h. after_case-Sound (close_session c a) (close_session-Keeps c a s h v)
          ]
      refl
step-Sound c (session_request id) v =
    after_case-Sound (some (new_session c id).1) (new_session-IsValid c id v)
step-Sound c conn_done v =
    elim c.done as (λ b. Sound (if b then end_serve (cleanup c) else serving c)) [
      | true ↦ cleanup-Sound c v
      | false ↦ v
    ]
step-Sound c (takes_packet a) v = takes-IsValid c a v
step-Sound c timer_fires v =
    let (t0, t1, t2) = v.timed in
    elim c.idle_t
        as (λ t.
          c.idle_t ≡ t
          → Sound (elim t [ running ↦ serving (record c { idle_t = fired }) | _ ↦ serving c ])) [
            | running ↦ λ e. record {
              table = v.table;
              timed = (ground (arith, e, t0), λ n q. ground arith, t2);
            }
            | absent ↦ λ e. v
            | stopped ↦ λ e. v
            | fired ↦ λ e. v
          ]
      refl
step-Sound c closes_conn v = record { table = v.table; timed = v.timed }

run-Sound_from : (c : Conn) (es : List Event) → IsValid c → Sound (run c es)
unfolding run
run-Sound_from c [] v = v
run-Sound_from c (e ∷ es) v =
    elim (step c e)
        as (λ r.
          Sound r
          → Sound (elim r [ serving c' ↦ run c' es | ended c' ↦ ended c' | crashed ↦ crashed ])) [
            | serving c' ↦ λ s. run-Sound_from c' es s
            | ended c' ↦ λ s. s
            | crashed ↦ λ s. s
          ]
      (step-Sound c e v)

new_conn-IsValid : (cfg : ConnConfig) (idle_timeout : Bool) → IsValid (new_conn cfg idle_timeout)
unfolding new_conn IsTable
new_conn-IsValid cfg idle_timeout = record {
  table = tt;
  timed = (inl refl, λ n q. ground arith, λ h. ground (arith, h));
}

-- Whatever packets, requests, timer events and closings reach a connection, the goroutine that
-- serves it never panics on a closed channel. While it serves, each id in the map leads to a session
-- of that id whose channels are open, the idle timer exists only on a multiplexing connection with
-- an idle time-out, is not left stopped without a session, and multiplexing is settled once it is
-- on. When it ends, the connection's done channel is closed.
pub run-Sound :
    (cfg : ConnConfig) (idle_timeout : Bool) (es : List Event)
    → Sound (run (new_conn cfg idle_timeout) es)
run-Sound cfg idle_timeout es =
    run-Sound_from (new_conn cfg idle_timeout) es (new_conn-IsValid cfg idle_timeout)

is_nil_iff : (m : List (ℕ × ℕ)) → (is_nil m ≡ true) ↔ (m ≡ [])
is_nil_iff [] = ground arith
is_nil_iff (x ∷ m) = ground arith

-- A client's request for a session on a connection that satisfies the invariant: it is refused as
-- not multiplexed exactly if the connection does not multiplex and has a session, for its id
-- exactly if that is in the map otherwise, and as closed exactly if there is no session and the
-- idle timer has fired; a granted request puts the session into the map.
pub new_session_cases :
    (c : Conn) (id : ℕ)
    → IsValid c
    → let (r, c') = new_session c id in
      (r ≡ err mux_not_supported ↔ ((c.mux ≡ false) × (c.sess ≢ [])))
      × (r ≡ err session_id_in_use ↔ ((c.mux ≡ true) × (find id c.sess ≢ none)))
      × (r ≡ err connection_closed ↔ ((c.sess ≡ []) × (c.idle_t ≡ fired)))
      × (r ≡ ok (length c.heap) → find id c'.sess ≡ some (length c.heap))
      × (r ≢ ok (length c.heap) → c' ≡ c)
unfolding new_session idle_expired find
new_session_cases c id v =
    let (t0, t1, t2) = v.timed in
    let nil = is_nil_iff c.sess in
    let added = add_session-find c id in
    (
      ground (arith, nil),
      ground (arith, nil),
      ground (arith, nil, t1),
      ground (arith, added),
      ground arith,
    )
