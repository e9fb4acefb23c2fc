-- ===== src/Client/LogHub/Counts.antt =====
-- The counters of pkg/client/logHub against the records that they count.
use tacacs_plus_go.Base.{
  All, Bool, Bool-cases, List, [], ap, arith, drop, false, if◌then◌else◌, inl, inr, length,
  length-append, refl, subst, suc, sym, take, take-append-drop, true, zero, ℕ, ◌+◌, ◌<◌, ◌==◌, ◌∷◌,
  ◌≡◌, ◌≤◌, ◌⊎◌,
}
use tacacs_plus_go.Client.LogHub.{
  Attempt, BulkResponse, Machine, Worker, after_attempt, answered, batch_size, count_dropped,
  count_enqueued, count_response, ended, failing, fails, idle, init, panics, recovering, responds,
  run_worker, sending, start_round, stop, successes, worker_step,
}
use tacacs_plus_go.Client.LogHub.Rounds.{start_round_cases, taken}
use tacacs_plus_go.Client.LogHub.Ledger.{
  Ledger, Op, act, counts_dropped, counts_enqueued, enqueue_cases, logs, run, start, stops, works,
}

-- A server whose counts are those of the batch, or that sends no counts and an item for each record
-- or none.
pub record IsHonest {E : Type 0} (r : List E → BulkResponse) : Type 0 where
  pub counts :
      (events : List E)
      → ((r events).success_count + (r events).failure_count ≡ length events)
        ⊎ (((r events).success_count ≡ 0)
            × ((r events).failure_count ≡ 0)
            × (((r events).items ≡ []) ⊎ (length (r events).items ≡ length events)))

abbrev pub HonestAttempt : {E : Type 0} → Attempt E → Type 0
HonestAttempt (responds r) = IsHonest r
HonestAttempt fails = Unit
HonestAttempt panics = ⊥

abbrev pub HonestOp : {E : Type 0} → Op E → Type 0
HonestOp (works attempt) = HonestAttempt attempt
HonestOp (logs event) = Unit
HonestOp counts_enqueued = Unit
HonestOp counts_dropped = Unit
HonestOp stops = Unit

successes-le : (items : List Bool) → successes items ≤ length items
successes-le [] = omega arith
successes-le (true ∷ items) = omega (arith, successes-le items)
successes-le (false ∷ items) = omega (arith, successes-le items)

count_response_sum :
    (n : ℕ) (r : BulkResponse)
    → 0 < n
    → (r.success_count + r.failure_count ≡ n)
      ⊎ ((r.success_count ≡ 0) × (r.failure_count ≡ 0) × ((r.items ≡ []) ⊎ (length r.items ≡ n)))
    → (count_response n r).0 + (count_response n r).1 ≡ n
unfolding count_response
count_response_sum n r pos h = ground (arith, successes-le r.items)

-- The records that the worker has taken from the queue and not yet counted.
abbrev pub in_flight : {E : Type 0} → Worker E → ℕ
in_flight idle = 0
in_flight (sending left b) = length b
in_flight (answered success failure) = success + failure
in_flight (failing n) = n
in_flight recovering = 0
in_flight ended = 0

-- Every record that entered the queue has been counted as sent or as failed, is in flight, or is still
-- in the queue.
abbrev pub IsAccounted : {E : Type 0} → Machine E → Type 0
IsAccounted m =
    m.hub.sent + m.hub.failed_final + in_flight m.worker + length m.hub.buf
    ≡ m.hub.enqueued + m.to_count

abbrev Filled : {E : Type 0} → Worker E → Type 0
Filled idle = Unit
Filled (sending left b) = 0 < length b
Filled (answered success failure) = Unit
Filled (failing n) = Unit
Filled recovering = Unit
Filled ended = Unit

module _ {E : Type 0} where
  Accounts : Machine E → Type 0
  Accounts m = IsAccounted m × Filled m.worker

  after_attempt_count :
      (left : ℕ) (b : List E) (attempt : Attempt E)
      → 0 < length b
      → HonestAttempt attempt
      → (in_flight (after_attempt left b attempt) ≡ length b)
        × Filled (after_attempt left b attempt)
  unfolding after_attempt
  after_attempt_count left b (responds r) pos h =
      (count_response_sum (length b) (r b) pos (h.counts b), tt)
  after_attempt_count zero b fails pos h = (refl, tt)
  after_attempt_count (suc left) b fails pos h = (refl, pos)
  after_attempt_count left b panics pos h = absurd h

  start_round-Accounts : (m : Machine E) → m.worker ≡ idle → Accounts m → Accounts (start_round m)
  unfolding Accounts taken
  start_round-Accounts m at a = elim (start_round_cases m) [
    | inl (_, _, e) ↦ subst Accounts (sym e) a
    | inr (inl (_, _, e)) ↦ subst Accounts (sym e) (omega (arith, a.0, ap in_flight at), tt)
    | inr (inr (filled, e)) ↦
        let n = batch_size m.hub in
        subst Accounts (sym e) (
          omega (
            arith,
            a.0,
            ap in_flight at,
            ap length (take-append-drop n m.hub.buf),
            length-append (take n m.hub.buf) (drop n m.hub.buf),
          ),
          filled,
        )
  ]

  worker_step-Accounts :
      (attempt : Attempt E) (worker : Worker E) (m : Machine E)
      → m.worker ≡ worker
      → HonestAttempt attempt
      → Accounts m
      → Accounts (worker_step attempt worker m)
  unfolding worker_step Accounts
  worker_step-Accounts attempt idle m at h a = start_round-Accounts m at a
  worker_step-Accounts attempt (sending left b) m at h a =
      let (same, filled) = after_attempt_count left b attempt (subst Filled at a.1) h in
      (omega (arith, a.0, ap in_flight at, same), filled)
  worker_step-Accounts attempt (answered success failure) m at h a =
      (omega (arith, a.0, ap in_flight at), tt)
  worker_step-Accounts attempt (failing n) m at h a = (omega (arith, a.0, ap in_flight at), tt)
  worker_step-Accounts attempt recovering m at h a = (omega (arith, a.0, ap in_flight at), tt)
  worker_step-Accounts attempt ended m at h a = a

  act-Accounts :
      (op : Op E) (l : Ledger E) → HonestOp op → Accounts l.machine → Accounts (act op l).machine
  unfolding act Accounts count_enqueued count_dropped stop run_worker
  act-Accounts (logs event) l h a = elim (enqueue_cases event l.machine) [
    | inl e ↦ subst Accounts (sym e) a
    | inr (inl e) ↦ subst Accounts (sym e) a
    | inr (inr (e, _)) ↦
        subst Accounts (sym e)
          (omega (arith, a.0, length-append l.machine.hub.buf (event ∷ [])), a.1)
  ]
  act-Accounts counts_enqueued l h a = elim (Bool-cases (l.machine.to_count == 0)) [
    | inl e ↦ rw e a
    | inr e ↦ rw e (ground (arith, a.0, e), a.1)
  ]
  act-Accounts counts_dropped l h a = elim (Bool-cases (l.machine.to_drop == 0)) [
    | inl e ↦ rw e a
    | inr e ↦ rw e a
  ]
  act-Accounts (works attempt) l h a =
      worker_step-Accounts attempt l.machine.worker l.machine refl h a
  act-Accounts stops l h a =
      elim l.machine.hub.enable
        as (λ b. Accounts (record (l.machine) {
          hub =
              if b
              then record (l.machine.hub) { enable = false; buf_closed = true }
              else l.machine.hub;
        })) [ true ↦ a | false ↦ a ]

  run-Accounts :
      (ops : List (Op E)) (l : Ledger E)
      → All HonestOp ops
      → Accounts l.machine
      → Accounts (run ops l).machine
  unfolding run
  run-Accounts [] l h a = a
  run-Accounts (op ∷ ops) l h a = run-Accounts ops (act op l) h.1 (act-Accounts op l h.0 a)

-- If the server is honest about its counts and no call panics, the counters account for every record,
-- at every step of the program: those counted as enqueued, with those whose loggers are about to count
-- them, are those counted as sent or as failed, those in flight with the worker, and those in the
-- queue.
pub run-IsAccounted :
    {E : Type 0} (queue_size : ℕ) (ops : List (Op E))
    → All HonestOp ops
    → IsAccounted (run ops (start queue_size)).machine
unfolding init Accounts
run-IsAccounted queue_size ops a = (run-Accounts ops (start queue_size) a (refl, tt)).0
