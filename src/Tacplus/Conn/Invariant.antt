-- ===== src/Tacplus/Conn/Invariant.antt =====
-- What every operation of the serving goroutine of pkg/public/tacplus/conn.go keeps.
use tacacs_plus_go.Base.Store.{delete, find, find-delete_self, get_elem?, get_elem?-append_new, set}
use tacacs_plus_go.Tacplus.Conn.Table.{
  IsTable, append-IsTable, delete-IsTable, IsTable-find, set_away-IsTable, set_open-IsTable,
}
use tacacs_plus_go.Tacplus.Conn.{
  Conn, Sess, absent, add_session, close_channels, close_session, idle_expired, is_nil, new_session,
  process_settled, queue_packet, running, set_err, settle_mux, stop_idle, stopped, timer_stops,
  ◌>>=◌,
}
use tacacs_plus_go.Tacplus.Crypt.{Raw}
use tacacs_plus_go.Base.{
  Error, Option, Option-cases, ap, arith, bit_and, eq_cases, false, if◌then◌else◌, inl, inr, length,
  none, not, packet_queue_full, refl, session_closed, some, subst, sym, true, ℕ, ◌&&◌, ◌==◌, ◌∙◌,
  ◌≡◌, ◌≢◌, ◌⊎◌,
}
use mathlib.Core.Option.{some-injective}

-- The idle timer exists only on a connection that multiplexes and has an idle time-out, it is never
-- left stopped on a connection without sessions, and the first packet settles multiplexing.
abbrev pub IsTimed : Conn → Type 0
IsTimed c =
    ((c.idle_t ≡ absent) ⊎ ((c.mux ≡ true) × (c.idle_timeout ≡ true)))
    × (is_nil c.sess ≡ true → c.idle_t ≢ stopped)
    × (c.mux ≡ true → c.check_mux ≡ false)

pub record IsValid (c : Conn) : Type 0 where
  pub table : IsTable c.heap c.sess
  pub timed : IsTimed c

abbrev pub Keeps : Option Conn → Type 0
Keeps none = ⊥
Keeps (some c) = IsValid c

bind-Keeps :
    (o : Option Conn) (k : Conn → Option Conn)
    → Keeps o
    → ((c : Conn) → IsValid c → Keeps (k c))
    → Keeps (o >>= k)
bind-Keeps none k h f = h
bind-Keeps (some c) k h f = f c h

pub settle_mux-IsValid : (c : Conn) (p : Raw) → IsValid c → IsValid (settle_mux c p)
unfolding settle_mux
settle_mux-IsValid c p v =
    let (t0, t1, t2) = v.timed in
    elim c.check_mux
        as (λ b.
          c.check_mux ≡ b
          → IsValid (
              if b
              then record c { mux = not (bit_and p.flags 0x04 == 0); check_mux = false }
              else c)) [
                | true ↦ λ e. record { table = v.table; timed = (ground (arith, e), t1, λ h. refl) }
                | false ↦ λ e. v
              ]
      refl

set_err-IsValid : (c : Conn) (a : ℕ) (e : Error) → IsValid c → IsValid (set_err c a e)
unfolding set_err
set_err-IsValid c a e v =
    elim (get_elem? c.heap a)
        as (λ o.
          get_elem? c.heap a ≡ o
          → IsValid (elim o [
            | none ↦ c
            | some s ↦ record c { heap = set c.heap a (record s { err = some e }) }
          ])) [
            | none ↦ λ h. v
            | some s ↦ λ h. record {
              table =
                  set_open-IsTable c.heap a s (record s { err = some e }) h refl refl refl c.sess
                    v.table;
              timed = v.timed;
            }
          ]
      refl

pub close_channels-open :
    (s : Sess)
    → s.in_closed ≡ false
    → s.done_closed ≡ false
    → close_channels s ≡ some (record s { done_closed = true; in_closed = true })
unfolding close_channels
close_channels-open s i d = rw (i, d) refl

closed : Conn → ℕ → Sess → Conn
closed c a s =
    let rest = delete s.id c.sess in
    record c {
      heap =
          set c.heap a
            (record s { in_closed = true; done_closed = true; err = some session_closed });
      sess = rest;
      idle_t = if is_nil rest && c.mux && c.idle_timeout then running else c.idle_t;
    }

closed-IsTimed : (c : Conn) (a : ℕ) (s : Sess) → IsTimed c → IsTimed (closed c a s)
unfolding closed
closed-IsTimed c a s (t0, t1, t2) = (ground (arith, t0), λ n e. ground (arith, t0), t2)

close_session_cases :
    (c : Conn) (a : ℕ) (s : Sess)
    → get_elem? c.heap a ≡ some s
    → IsTable c.heap c.sess
    → (close_session c a ≡ some c)
      ⊎ ((find s.id c.sess ≡ some a) × (close_session c a ≡ some (closed c a s)))
unfolding close_session closed close_channels
close_session_cases c a s h t = elim (Option-cases (find s.id c.sess)) [
  | inl n ↦ inl (ground arith)
  | inr (b, e) ↦ elim (eq_cases b a) [
    | inl same ↦
        let (r, g, _, i, d) = IsTable-find c.heap c.sess s.id b t e in
        let one = some-injective r s (sym g ∙ ap (get_elem? c.heap) same ∙ h) in
        let in_open = sym (ap (λ (x : Sess). x.in_closed) one) ∙ i in
        let done_open = sym (ap (λ (x : Sess). x.done_closed) one) ∙ d in
        inr (ground arith, ground arith)
    | inr ne ↦ inl (ground arith)
  ]
]

closed-IsValid :
    (c : Conn) (a : ℕ) (s : Sess) → get_elem? c.heap a ≡ some s → IsValid c → IsValid (closed c a s)
unfolding closed set delete
closed-IsValid c a s h v = record {
  table =
      set_away-IsTable c.heap a s _ h (delete s.id c.sess) (find-delete_self s.id c.sess)
        (delete-IsTable c.heap c.sess s.id v.table);
  timed = closed-IsTimed c a s v.timed;
}

pub close_session-Keeps :
    (c : Conn) (a : ℕ) (s : Sess)
    → get_elem? c.heap a ≡ some s
    → IsValid c
    → Keeps (close_session c a)
close_session-Keeps c a s h v = elim (close_session_cases c a s h v.table) [
  | inl e ↦ subst Keeps (sym e) v
  | inr (_, e) ↦ subst Keeps (sym e) (closed-IsValid c a s h v)
]

queue_packet-Keeps :
    (c : Conn) (id a : ℕ) (p : Raw)
    → find id c.sess ≡ some a
    → IsValid c
    → Keeps (queue_packet c a p)
unfolding queue_packet
queue_packet-Keeps c id a p h v =
    let (s, g, _, i, d) = IsTable-find c.heap c.sess id a v.table h in
    rw (queue_packet, g, i)
      (elim s.queue
        as (λ q. Keeps (elim q [
          | none ↦ some (record c { heap = set c.heap a (record s { queue = some p }) })
          | some q ↦ (close_session c a >>= λ c'. some (set_err c' a packet_queue_full))
        ])) [
          | none ↦ record {
            table =
                set_open-IsTable c.heap a s (record s { queue = some p }) g refl refl refl c.sess
                  v.table;
            timed = v.timed;
          }
          | some q ↦
              bind-Keeps (close_session c a) _ (close_session-Keeps c a s g v)
                (λ c' v'. set_err-IsValid c' a packet_queue_full v')
        ])

add_session-IsValid :
    (c : Conn) (id : ℕ)
    → IsTable c.heap c.sess
    → (c.idle_t ≡ absent) ⊎ ((c.mux ≡ true) × (c.idle_timeout ≡ true))
    → (c.mux ≡ true → c.check_mux ≡ false)
    → IsValid (add_session c id)
unfolding add_session IsTable
add_session-IsValid c id t t0 t2 = record {
  table = (
    (_, get_elem?-append_new c.heap _, refl, refl, refl),
    find-delete_self id c.sess,
    append-IsTable c.heap _ _ (delete-IsTable c.heap c.sess id t),
  );
  timed = (t0, λ e. absurd (ground arith), t2);
}

add_stopped-IsValid : (c : Conn) (id : ℕ) → IsValid c → IsValid (add_session (stop_idle c) id)
unfolding stop_idle
add_stopped-IsValid c id v =
    let (t0, t1, t2) = v.timed in
    elim (is_nil c.sess && timer_stops c.idle_t)
        as (λ b.
          (is_nil c.sess && timer_stops c.idle_t) ≡ b
          → IsValid (add_session (if b then record c { idle_t = stopped } else c) id)) [
            | true ↦ λ e. add_session-IsValid _ id v.table (ground (arith, e, t0)) t2
            | false ↦ λ e. add_session-IsValid c id v.table t0 t2
          ]
      refl

-- The new session is in the map, under its address.
pub add_session-find :
    (c : Conn) (id : ℕ) → find id (add_session (stop_idle c) id).sess ≡ some (length c.heap)
unfolding add_session stop_idle find
add_session-find c id = ground arith

pub process_settled-Keeps : (c : Conn) (p : Raw) → IsValid c → Keeps (process_settled c p)
unfolding process_settled
process_settled-Keeps c p v =
    elim (find p.id c.sess)
        as (λ o.
          find p.id c.sess ≡ o
          → Keeps (elim o [
            | some addr ↦ queue_packet c addr p
            | none ↦
                if idle_expired c
                then some c
                else queue_packet (add_session (stop_idle c) p.id) (length c.heap) p
          ])) [
            | some addr ↦ λ e. queue_packet-Keeps c p.id addr p e v
            | none ↦ λ e.
                elim (idle_expired c)
                  as (λ b. Keeps (
                    if b
                    then some c
                    else queue_packet (add_session (stop_idle c) p.id) (length c.heap) p)) [
                      | true ↦ v
                      | false ↦
                          queue_packet-Keeps _ p.id _ p (add_session-find c p.id)
                            (add_stopped-IsValid c p.id v)
                    ]
          ]
      refl

new_session_state :
    (c : Conn) (id : ℕ)
    → ((new_session c id).1 ≡ c) ⊎ ((new_session c id).1 ≡ add_session (stop_idle c) id)
unfolding new_session
new_session_state c id = ground arith

pub new_session-IsValid : (c : Conn) (id : ℕ) → IsValid c → IsValid (new_session c id).1
new_session-IsValid c id v = elim (new_session_state c id) [
  | inl e ↦ subst IsValid (sym e) v
  | inr e ↦ subst IsValid (sym e) (add_stopped-IsValid c id v)
]
