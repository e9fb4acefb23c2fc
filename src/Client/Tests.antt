-- ===== src/Client/Tests.antt =====
-- Runs of pkg/client/logHub on numbered records.
use tacacs_plus_go.Base.{
  All, List, [], ap, arith, false, inl, inr, length, length-map, map, refl, suc, true, ℕ, ◌+◌, ◌∷◌,
  ◌≡◌, ◌⊎◌,
}
use tacacs_plus_go.Client.LogHub.{
  BulkResponse, after_attempt, count_dropped, count_enqueued, count_response, ended, enqueue, fails,
  idle, init, panics, pull_batch, responds, run_worker, send_bulk, start_round, stop, worker_step,
}
use tacacs_plus_go.Client.LogHub.Calls.{Retried, copies, nothing_sent}
use tacacs_plus_go.Client.LogHub.Ledger.{
  IsOrdered, Ledger, Op, act, counts_dropped, counts_enqueued, keep, logs, nothing, run,
  run-IsOrdered, start, stops, works,
}
use tacacs_plus_go.Client.LogHub.Drain.{run-stops}
use tacacs_plus_go.Client.LogHub.Counts.{HonestOp, IsAccounted, IsHonest, run-IsAccounted}

-- A server that reports a failure for the first record of every batch, by items alone.
abbrev first_fails : List ℕ → BulkResponse
first_fails [] = record { success_count = 0; failure_count = 0; items = [] }
first_fails (x ∷ xs) = record {
  success_count = 0;
  failure_count = 0;
  items = false ∷ map (λ _. true) xs;
}

first_fails-IsHonest : IsHonest first_fails
first_fails-IsHonest = record { counts = λ events. honest events }
  where
    honest :
        (events : List ℕ)
        → ((first_fails events).success_count + (first_fails events).failure_count ≡ length events)
          ⊎ (((first_fails events).success_count ≡ 0)
              × ((first_fails events).failure_count ≡ 0)
              × (((first_fails events).items ≡ [])
                  ⊎ (length (first_fails events).items ≡ length events)))
    honest [] = inl refl
    honest (x ∷ xs) = inr (refl, refl, inr (ap suc (length-map xs (λ _. true))))

-- Two records are logged and sent in one batch, at the second attempt; a third one is dropped by a full
-- queue, and a fourth one is logged after the program has stopped.
abbrev ops : List (Op ℕ)
ops =
    logs 1
    ∷ logs 2
    ∷ counts_enqueued
    ∷ logs 3
    ∷ works fails
    ∷ works fails
    ∷ counts_dropped
    ∷ works (responds first_fails)
    ∷ stops
    ∷ logs 4
    ∷ works fails
    ∷ works fails
    ∷ []

ops-HonestOp : All HonestOp ops
ops-HonestOp =
    (tt, (tt, (tt, (tt, (tt, (tt, (tt, (first_fails-IsHonest, (tt, (tt, (tt, (tt, tt))))))))))))

run-IsOrdered_example : IsOrdered (run ops (start 2))
run-IsOrdered_example = run-IsOrdered 2 ops

run-IsAccounted_example : IsAccounted (run ops (start 2)).machine
run-IsAccounted_example = run-IsAccounted 2 ops ops-HonestOp

-- The batch is sent twice: the first call fails.
test_calls : (run ops (start 2)).machine.calls ≡ (1 ∷ 2 ∷ []) ∷ (1 ∷ 2 ∷ []) ∷ []
unfolding run act enqueue count_enqueued count_dropped run_worker worker_step start_round pull_batch
    send_bulk after_attempt count_response stop init
test_calls = refl

-- A record is queued, and the program stops.
abbrev queue : Ledger ℕ
queue = record {
  machine = record {
    hub = record (init 5) { buf = 7 ∷ []; enqueued = 1 };
    worker = idle;
    calls = [];
    to_count = 0;
    to_drop = 0;
  };
  logged = 7 ∷ [];
}

queue-IsOrdered : IsOrdered queue
unfolding init
queue-IsOrdered = record {
  records = 7 ∷ [];
  progress = record {
    over = [];
    calls = [];
    retried = nothing_sent;
    made = refl;
    whole = refl;
    retries = tt;
  };
  order = keep nothing;
  counted = refl;
  bounded = omega arith;
}

run-stops_example :
    ((run (stops ∷ logs 4 ∷ copies 12 (works panics)) queue).machine.worker ≡ ended)
    × Retried
        (run (stops ∷ logs 4 ∷ copies 12 (works panics)) queue).machine.calls
        queue-IsOrdered.records
unfolding init
run-stops_example =
    run-stops queue (logs 4 ∷ copies 12 (works panics)) queue-IsOrdered refl (λ e. cc e)
      (omega arith)
