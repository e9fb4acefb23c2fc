-- ===== src/Tacplus/Conn.antt =====
-- pkg/public/tacplus/conn.go: the goroutine that serves a connection, and what others do to it.
--
-- Sessions are shared objects: `heap` holds them by address, and `sess` is the map of the open ones.
-- Closing a closed channel and sending on one are run-time panics.
pub mod Table
pub mod Invariant
pub mod Serve
use tacacs_plus_go.Tacplus.Crypt.{Raw}
use tacacs_plus_go.Base.Store.{delete, find, get_elem?, set}
use tacacs_plus_go.Base.{
  Bool, Error, List, Option, Result, [], bit_and, connection_closed, err, false, if◌then◌else◌,
  length, mux_not_supported, none, not, ok, packet_queue_full, session_closed, session_id_in_use,
  some, true, ℕ, ◌&&◌, ◌++◌, ◌==◌, ◌∷◌,
}
use tacacs_plus_go.Tacplus.Session.{ConnConfig}

-- `queue` is the channel s.in, which holds one packet.
pub record Sess : Type 0 where
  pub id : ℕ
  pub queue : Option Raw
  pub in_closed : Bool
  pub done_closed : Bool
  pub err : Option Error

pub data Timer : Type 0 where
  absent running stopped fired : Timer

pub record Conn : Type 0 where
  pub heap : List Sess
  pub sess : List (ℕ × ℕ)
  pub mux : Bool
  pub check_mux : Bool
  -- IdleTimeout > 0
  pub idle_timeout : Bool
  pub idle_t : Timer
  pub done : Bool

-- `none` is a run-time panic.
infixl 5 ◌>>=◌
abbrev pub ◌>>=◌ : {A B : Type 0} → Option A → (A → Option B) → Option B
none >>= f = none
some a >>= f = f a

abbrev pub is_nil : List (ℕ × ℕ) → Bool
is_nil [] = true
is_nil (x ∷ xs) = false

-- close(ch), over the flag that says whether the channel is closed.
abbrev pub close_channel : Bool → Option Bool
close_channel true = none
close_channel false = some true

unfoldable pub close_channels : Sess → Option Sess
close_channels s = do
  done ← close_channel s.done_closed
  in_ch ← close_channel s.in_closed
  some (record s { done_closed = done; in_closed = in_ch })

-- idleT.Stop(): true if the call stops a running timer.
abbrev pub timer_stops : Timer → Bool
timer_stops running = true
timer_stops _ = false

-- len(c.sess) == 0 && c.idleT != nil && !c.idleT.Stop(), and what the call of Stop leaves.
unfoldable pub idle_expired : Conn → Bool
idle_expired c = is_nil c.sess && elim c.idle_t [ absent ↦ false | t ↦ not (timer_stops t) ]

unfoldable pub stop_idle : Conn → Conn
stop_idle c = if is_nil c.sess && timer_stops c.idle_t then record c { idle_t = stopped } else c

-- newSession(c, id), c.sess[id] = s
unfoldable pub add_session : Conn → ℕ → Conn
add_session c id = record c {
  heap =
      c.heap
      ++ (record { id = id; queue = none; in_closed = false; done_closed = false; err = none }
          ∷ []);
  sess = (id, length c.heap) ∷ delete id c.sess;
}

-- Closes the session at an address, unless the map no longer has it.
unfoldable pub close_session : Conn → ℕ → Option Conn
close_session c addr = elim (get_elem? c.heap addr) [
  | none ↦ none
  | some s ↦ elim (find s.id c.sess) [
    | none ↦ some c
    | some a ↦ if not (a == addr) then some c else do
      s' ← close_channels s
      let rest = delete s.id c.sess
      some (record c {
        heap = set c.heap addr (record s' { err = some session_closed });
        sess = rest;
        idle_t = if is_nil rest && c.mux && c.idle_timeout then running else c.idle_t;
      })
  ]
]

unfoldable pub set_err : Conn → ℕ → Error → Conn
set_err c addr e = elim (get_elem? c.heap addr) [
  | none ↦ c
  | some s ↦ record c { heap = set c.heap addr (record s { err = some e }) }
]

-- select { case s.in <- p: default: c.closeSession(s); s.setErr(errPacketQueueFull) }
unfoldable pub queue_packet : Conn → ℕ → Raw → Option Conn
queue_packet c addr p = elim (get_elem? c.heap addr) [
  | none ↦ none
  | some s ↦ if s.in_closed then none else elim s.queue [
    | none ↦ some (record c { heap = set c.heap addr (record s { queue = some p }) })
    | some q ↦ (close_session c addr >>= λ c'. some (set_err c' addr packet_queue_full))
  ]
]

-- On the first packet the multiplexing status is read off its flags.
unfoldable pub settle_mux : Conn → Raw → Conn
settle_mux c p =
    if c.check_mux then record c { mux = not (bit_and p.flags 0x04 == 0); check_mux = false } else c

unfoldable pub process_settled : Conn → Raw → Option Conn
process_settled c p = elim (find p.id c.sess) [
  | some addr ↦ queue_packet c addr p
  | none ↦
      if idle_expired c
      then some c
      else queue_packet (add_session (stop_idle c) p.id) (length c.heap) p
]

unfoldable pub process_packet : Conn → Raw → Option Conn
process_packet c p = process_settled (settle_mux c p) p

-- The client's request for a session: the new address, or an error.
unfoldable pub new_session : Conn → ℕ → Result ℕ × Conn
new_session c id =
    if not c.mux && not (is_nil c.sess) then (err mux_not_supported, c) else elim (find id c.sess) [
      | some a ↦ (err session_id_in_use, c)
      | none ↦
          if idle_expired c
          then (err connection_closed, c)
          else (ok (length c.heap), add_session (stop_idle c) id)
    ]

-- for _, s := range c.sess { close(s.done); close(s.in) }
unfoldable pub close_all : List (ℕ × ℕ) → List Sess → Option (List Sess)
close_all [] heap = some heap
close_all ((id, addr) ∷ m) heap = elim (get_elem? heap addr) [
  | none ↦ none
  | some s ↦ do s' ← close_channels s; close_all m (set heap addr s')
]

unfoldable pub cleanup : Conn → Option Conn
cleanup c = do
  heap ← close_all c.sess c.heap
  some (record c { heap = heap; done = true; idle_t = elim c.idle_t [ running ↦ stopped | t ↦ t ] })

-- The cases of the select in serve, and what other goroutines do in between: a session takes its
-- packet, the idle timer fires, and the connection is closed. A request names a session that exists.
pub data Event : Type 0 where
  packet_in : Raw → Event
  close_request : ℕ → Event
  session_request : ℕ → Event
  conn_done : Event
  takes_packet : ℕ → Event
  timer_fires : Event
  closes_conn : Event

pub data Serving : Type 0 where
  serving : Conn → Serving
  ended : Conn → Serving
  crashed : Serving

abbrev pub end_serve : Option Conn → Serving
end_serve none = crashed
end_serve (some c) = ended c

-- After a case of the select the loop goes on, unless a connection that does not multiplex has no
-- session left.
unfoldable pub after_case : Option Conn → Serving
after_case none = crashed
after_case (some c) = if is_nil c.sess && not c.mux then end_serve (cleanup c) else serving c

unfoldable pub takes : Conn → ℕ → Conn
takes c addr = elim (get_elem? c.heap addr) [
  | none ↦ c
  | some s ↦ record c { heap = set c.heap addr (record s { queue = none }) }
]

unfoldable pub step : Conn → Event → Serving
step c (packet_in p) = after_case (process_packet c p)
step c (close_request addr) = elim (get_elem? c.heap addr) [
  | none ↦ serving c
  | some s ↦ after_case (close_session c addr)
]
step c (session_request id) = after_case (some (new_session c id).1)
step c conn_done = if c.done then end_serve (cleanup c) else serving c
step c (takes_packet addr) = serving (takes c addr)
step c timer_fires = elim c.idle_t [
  | running ↦ serving (record c { idle_t = fired })
  | _ ↦ serving c
]
step c closes_conn = serving (record c { done = true })

-- newConn
unfoldable pub new_conn : ConnConfig → Bool → Conn
new_conn cfg idle_timeout = record {
  heap = [];
  sess = [];
  mux = cfg.legacy_mux;
  check_mux = not cfg.legacy_mux && cfg.mux;
  idle_timeout = idle_timeout;
  idle_t = absent;
  done = false;
}

unfoldable pub run : Conn → List Event → Serving
run c [] = serving c
run c (e ∷ es) = elim (step c e) [
  | serving c' ↦ run c' es
  | ended c' ↦ ended c'
  | crashed ↦ crashed
]
