-- ===== src/Client/LogHub/Drain.antt =====
-- After Stop the worker of pkg/client/logHub sends what is left and ends.
use tacacs_plus_go.Base.{
  List, [], ap, append-nil, arith, drop, false, inl, inr, length, length-append, refl, subst, suc,
  sym, take, take-append-drop, true, zero, ℕ, ◌*◌, ◌++◌, ◌+◌, ◌-◌, ◌<◌, ◌∙◌, ◌∷◌, ◌≡◌, ◌≢◌, ◌≤◌,
}
use tacacs_plus_go.Client.LogHub.{
  Attempt, Machine, Worker, after_attempt, answered, batch_size, count_dropped, count_enqueued,
  ended, enqueue, failing, fails, idle, panics, recovering, responds, run_worker, sending,
  start_round, stop, worker_step,
}
use tacacs_plus_go.Client.LogHub.Rounds.{run_worker-SameCounts, start_round_cases, taken}
use tacacs_plus_go.Client.LogHub.Calls.{
  Progress, Retried, Retries, held, like, run_worker-Progress, under_way,
}
use tacacs_plus_go.Client.LogHub.Ledger.{
  IsOrdered, Ledger, Op, act, counts_dropped, counts_enqueued, logs, run, stops, works,
}

-- The steps of the worker among the operations.
abbrev pub steps : {E : Type 0} → List (Op E) → ℕ
steps [] = 0
steps (logs event ∷ ops) = steps ops
steps (counts_enqueued ∷ ops) = steps ops
steps (counts_dropped ∷ ops) = steps ops
steps (works attempt ∷ ops) = suc (steps ops)
steps (stops ∷ ops) = steps ops

-- How many steps the worker needs at most, before it ends with an empty queue.
abbrev rank : {E : Type 0} → Worker E → ℕ
rank idle = 1
rank (sending left b) = left + 4
rank (answered success failure) = 3
rank (failing n) = 2
rank recovering = 2
rank ended = 0

abbrev measure : {E : Type 0} → Machine E → ℕ
measure m = 6 * length m.hub.buf + rank m.worker

rank-ended : {E : Type 0} (w : Worker E) → rank w ≡ 0 → w ≡ ended
rank-ended idle e = absurd (omega arith)
rank-ended (sending left b) e = absurd (omega arith)
rank-ended (answered success failure) e = absurd (omega arith)
rank-ended (failing n) e = absurd (omega arith)
rank-ended recovering e = absurd (omega arith)
rank-ended ended e = refl

module _ {E : Type 0} where
  record Stopped (records : List E) (m : Machine E) : Type 0 where
    progress : Progress records m
    disabled : m.hub.enable ≡ false
    closed : m.hub.buf_closed ≡ true
    emptied : m.worker ≡ ended → m.hub.buf ≡ []

  after_attempt-rank :
      (left : ℕ) (b : List E) (attempt : Attempt E)
      → (rank (after_attempt left b attempt) ≤ left + 3) × (0 < rank (after_attempt left b attempt))
  unfolding after_attempt
  after_attempt-rank left b (responds r) = (omega arith, omega arith)
  after_attempt-rank zero b fails = (omega arith, omega arith)
  after_attempt-rank (suc left) b fails = (omega arith, omega arith)
  after_attempt-rank left b panics = (omega arith, omega arith)

  Shrinks : Machine E → Machine E → Type 0
  Shrinks m m' = (measure m' ≤ measure m - 1) × (m'.worker ≡ ended → m'.hub.buf ≡ [])

  start_round-Shrinks :
      (m : Machine E) → m.worker ≡ idle → m.hub.buf_closed ≡ true → Shrinks m (start_round m)
  unfolding Shrinks taken
  start_round-Shrinks m at closed = elim (start_round_cases m) [
    | inl (_, open_queue, _) ↦ absurd (cc (open_queue, closed))
    | inr (inl (nil, _, e)) ↦ subst (Shrinks m) (sym e) (omega (arith, ap rank at), λ _. nil)
    | inr (inr (filled, e)) ↦
        let n = batch_size m.hub in
        subst (Shrinks m) (sym e) (
          omega (
            arith,
            ap rank at,
            filled,
            ap length (take-append-drop n m.hub.buf),
            length-append (take n m.hub.buf) (drop n m.hub.buf),
          ),
          λ h. absurd (cc h),
        )
  ]

  worker_step-Shrinks :
      (attempt : Attempt E) (worker : Worker E) (m : Machine E)
      → m.worker ≡ worker
      → m.hub.buf_closed ≡ true
      → (m.worker ≡ ended → m.hub.buf ≡ [])
      → Shrinks m (worker_step attempt worker m)
  unfolding worker_step Shrinks
  worker_step-Shrinks attempt idle m at closed nil = start_round-Shrinks m at closed
  worker_step-Shrinks attempt (sending left b) m at closed nil =
      let (less, pos) = after_attempt-rank left b attempt in
      (omega (arith, ap rank at, less), λ h. absurd (omega (arith, ap rank h, pos)))
  worker_step-Shrinks attempt (answered success failure) m at closed nil =
      (omega (arith, ap rank at), λ h. absurd (cc h))
  worker_step-Shrinks attempt (failing n) m at closed nil =
      (omega (arith, ap rank at), λ h. absurd (cc h))
  worker_step-Shrinks attempt recovering m at closed nil =
      (omega (arith, ap rank at), λ h. absurd (cc h))
  worker_step-Shrinks attempt ended m at closed nil =
      (omega (arith, ap rank at, ap length (nil at)), nil)

  run_worker-Stopped :
      (records : List E) (attempt : Attempt E) (m : Machine E)
      → Stopped records m
      → Stopped records (run_worker attempt m) × (measure (run_worker attempt m) ≤ measure m - 1)
  unfolding run_worker Shrinks
  run_worker-Stopped records attempt m st =
      let same = run_worker-SameCounts attempt m in
      let shrinks = worker_step-Shrinks attempt m.worker m refl st.closed st.emptied in
      (
        record {
          progress = run_worker-Progress records attempt m st.progress;
          disabled = same.enable ∙ st.disabled;
          closed = same.closed ∙ st.closed;
          emptied = shrinks.1;
        },
        shrinks.0,
      )

  -- What the other operations do to a hub that has stopped.
  quiet :
      (op : Op E) (l : Ledger E)
      → l.machine.hub.enable ≡ false
      → steps (op ∷ []) ≡ 0
      → ((act op l).machine.calls ≡ l.machine.calls)
        × ((act op l).machine.worker ≡ l.machine.worker)
        × ((act op l).machine.hub.buf ≡ l.machine.hub.buf)
        × ((act op l).machine.hub.enable ≡ false)
        × ((act op l).machine.hub.buf_closed ≡ l.machine.hub.buf_closed)
  unfolding act enqueue count_enqueued count_dropped stop
  quiet (logs event) l off none_of = ground (arith, off)
  quiet counts_enqueued l off none_of = ground (arith, off)
  quiet counts_dropped l off none_of = ground (arith, off)
  quiet (works attempt) l off none_of = absurd (omega arith)
  quiet stops l off none_of = ground (arith, off)

  quiet-Stopped :
      (records : List E) (op : Op E) (l : Ledger E)
      → steps (op ∷ []) ≡ 0
      → Stopped records l.machine
      → Stopped records (act op l).machine × (measure (act op l).machine ≡ measure l.machine)
  quiet-Stopped records op l none_of st =
      let (calls, at, queue, off, closed) = quiet op l st.disabled none_of in
      (
        record {
          progress = like records l.machine (act op l).machine calls at queue st.progress;
          disabled = off;
          closed = closed ∙ st.closed;
          emptied = λ h. queue ∙ st.emptied (sym at ∙ h);
        },
        omega (arith, ap length queue, ap rank at),
      )

  act-Stopped :
      (records : List E) (op : Op E) (l : Ledger E)
      → Stopped records l.machine
      → Stopped records (act op l).machine
        × (measure (act op l).machine ≤ measure l.machine - steps (op ∷ []))
  unfolding act
  act-Stopped records (logs event) l st =
      let (next, same) = quiet-Stopped records (logs event) l refl st in (next, omega (arith, same))
  act-Stopped records counts_enqueued l st =
      let (next, same) = quiet-Stopped records counts_enqueued l refl st in
      (next, omega (arith, same))
  act-Stopped records counts_dropped l st =
      let (next, same) = quiet-Stopped records counts_dropped l refl st in
      (next, omega (arith, same))
  act-Stopped records (works attempt) l st = run_worker-Stopped records attempt l.machine st
  act-Stopped records stops l st =
      let (next, same) = quiet-Stopped records stops l refl st in (next, omega (arith, same))

  steps-cons : (op : Op E) (ops : List (Op E)) → steps (op ∷ ops) ≡ steps (op ∷ []) + steps ops
  steps-cons (logs event) ops = omega arith
  steps-cons counts_enqueued ops = omega arith
  steps-cons counts_dropped ops = omega arith
  steps-cons (works attempt) ops = omega arith
  steps-cons stops ops = omega arith

  run-Stopped :
      (records : List E) (ops : List (Op E)) (l : Ledger E)
      → Stopped records l.machine
      → measure l.machine ≤ steps ops
      → Stopped records (run ops l).machine × ((run ops l).machine.worker ≡ ended)
  unfolding run
  run-Stopped records [] l st le = (st, rank-ended l.machine.worker (omega arith))
  run-Stopped records (op ∷ ops) l st le =
      let (next, less) = act-Stopped records op l st in
      run-Stopped records ops (act op l) next (omega (arith, less, le, steps-cons op ops))

  ended-Retried :
      (records : List E) (m : Machine E)
      → Stopped records m
      → m.worker ≡ ended
      → Retried m.calls records
  ended-Retried records m st at =
      let p = st.progress in
      let made : m.calls ≡ p.calls =
        p.made ∙ ap (λ w. p.calls ++ under_way w) at ∙ append-nil p.calls in
      let whole : p.over ≡ records =
        sym (append-nil p.over)
        ∙ ap (λ w. p.over ++ (held w ++ [])) (sym at)
        ∙ ap (λ t. p.over ++ (held m.worker ++ t)) (sym (st.emptied at))
        ∙ p.whole in
      subst (λ t. Retried t records) (sym made) (subst (Retried p.calls) whole p.retried)

  rank-bound : (w : Worker E) → Retries w → rank w ≤ 6
  rank-bound idle r = omega arith
  rank-bound (sending left b) r = omega arith
  rank-bound (answered success failure) r = omega arith
  rank-bound (failing n) r = omega arith
  rank-bound recovering r = omega arith
  rank-bound ended r = omega arith

  -- Once the program stops, the worker ends, whatever the server answers and whatever else happens
  -- meanwhile, in at most six steps for each record of the queue and six more. By then every record
  -- that had entered the queue has been sent, in batches and in their order, each batch one to three
  -- times in a row, and no other record has been sent.
  pub run-stops :
      (l : Ledger E) (ops : List (Op E)) (o : IsOrdered l)
      → l.machine.hub.enable ≡ true
      → l.machine.worker ≢ ended
      → 6 * length l.machine.hub.buf + 6 ≤ steps ops
      → ((run (stops ∷ ops) l).machine.worker ≡ ended)
        × Retried (run (stops ∷ ops) l).machine.calls o.records
  unfolding run act stop
  run-stops l ops o on going le =
      let m : Machine E = record (l.machine) {
        hub = record (l.machine.hub) { enable = false; buf_closed = true };
      } in
      let st : Stopped o.records m = record {
        progress = like o.records l.machine m refl refl refl o.progress;
        disabled = refl;
        closed = refl;
        emptied = λ e. absurd (going e);
      } in
      let (end_state, at) =
        run-Stopped o.records ops (record l { machine = m }) st
          (omega (arith, le, rank-bound l.machine.worker o.progress.retries)) in
      rw on (at, ended-Retried o.records _ end_state at)
