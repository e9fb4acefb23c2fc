-- ===== src/Client/LogHub/Ledger.antt =====
-- What becomes of the records logged through pkg/client/logHub.
use tacacs_plus_go.Base.{
  Bool-cases, List, [], arith, false, if◌then◌else◌, inl, inr, length, length-append, refl, subst,
  sym, true, ℕ, ◌++◌, ◌+◌, ◌<◌, ◌==◌, ◌∷◌, ◌≡◌, ◌≤◌, ◌⊎◌,
}
use tacacs_plus_go.Client.LogHub.{
  Attempt, Machine, count_dropped, count_enqueued, enqueue, idle, init, run_worker, stop,
}
use tacacs_plus_go.Client.LogHub.Rounds.{run_worker-SameCounts}
use tacacs_plus_go.Client.LogHub.Calls.{Progress, like, nothing_sent, queued, run_worker-Progress}

-- The second list holds the first one's elements in the same order, and maybe others.
pub data Kept {E : Type 0} : List E → List E → Type 0 where
  nothing : Kept [] []
  keep : {x : E} {xs ys : List E} → Kept xs ys → Kept (x ∷ xs) (x ∷ ys)
  skip : {y : E} {xs ys : List E} → Kept xs ys → Kept xs (y ∷ ys)

-- The steps of the program: a record is logged, a logged record is added to one of the two counters,
-- the worker makes its next step, or the program stops.
pub data Op (E : Type 0) : Type 0 where
  logs : E → Op E
  counts_enqueued : Op E
  counts_dropped : Op E
  works : Attempt E → Op E
  stops : Op E

-- The machine, with the records that were logged.
pub record Ledger (E : Type 0) : Type 0 where
  pub machine : Machine E
  pub logged : List E

module _ {E : Type 0} where
  Kept-snoc : {xs ys : List E} (x : E) → Kept xs ys → Kept (xs ++ (x ∷ [])) (ys ++ (x ∷ []))
  Kept-snoc x nothing = keep nothing
  Kept-snoc x (keep k) = keep (Kept-snoc x k)
  Kept-snoc x (skip k) = skip (Kept-snoc x k)

  Kept-more : {xs ys : List E} (x : E) → Kept xs ys → Kept xs (ys ++ (x ∷ []))
  Kept-more x nothing = skip nothing
  Kept-more x (keep k) = keep (Kept-more x k)
  Kept-more x (skip k) = skip (Kept-more x k)

  unfoldable pub act : Op E → Ledger E → Ledger E
  act (logs event) l = record {
    machine = enqueue event l.machine;
    logged = l.logged ++ (event ∷ []);
  }
  act counts_enqueued l = record l { machine = count_enqueued l.machine }
  act counts_dropped l = record l { machine = count_dropped l.machine }
  act (works attempt) l = record l { machine = run_worker attempt l.machine }
  act stops l = record l { machine = record (l.machine) { hub = stop l.machine.hub } }

  unfoldable pub run : List (Op E) → Ledger E → Ledger E
  run [] l = l
  run (op ∷ ops) l = run ops (act op l)

  -- The records that entered the queue: logged ones, in their order. They have been sent, are being
  -- sent or are queued, and each has been counted or its logger is about to do it.
  pub record IsOrdered (l : Ledger E) : Type 0 where
    pub records : List E
    pub progress : Progress records l.machine
    pub order : Kept records l.logged
    pub counted : length records ≡ l.machine.hub.enqueued + l.machine.to_count
    pub bounded : length l.machine.hub.buf ≤ l.machine.hub.soft_max_queue

  pub enqueue_cases :
      (event : E) (m : Machine E)
      → (enqueue event m ≡ m)
        ⊎ ((enqueue event m ≡ record m { to_drop = m.to_drop + 1 })
            ⊎ ((enqueue event m ≡ record m {
              hub = record (m.hub) { buf = m.hub.buf ++ (event ∷ []) };
              to_count = m.to_count + 1;
            })
                × (length m.hub.buf < m.hub.soft_max_queue)))
  unfolding enqueue
  enqueue_cases event m = ground arith

  logs-IsOrdered : (event : E) (l : Ledger E) → IsOrdered l → IsOrdered (act (logs event) l)
  unfolding act
  logs-IsOrdered event l o = elim (enqueue_cases event l.machine) [
    | inl e ↦
        subst (λ m. IsOrdered (record { machine = m; logged = l.logged ++ (event ∷ []) })) (sym e)
          (record {
            records = o.records;
            progress = o.progress;
            order = Kept-more event o.order;
            counted = o.counted;
            bounded = o.bounded;
          })
    | inr (inl e) ↦
        subst (λ m. IsOrdered (record { machine = m; logged = l.logged ++ (event ∷ []) })) (sym e)
          (record {
            records = o.records;
            progress = like o.records l.machine _ refl refl refl o.progress;
            order = Kept-more event o.order;
            counted = o.counted;
            bounded = o.bounded;
          })
    | inr (inr (e, room)) ↦
        subst (λ m. IsOrdered (record { machine = m; logged = l.logged ++ (event ∷ []) })) (sym e)
          (record {
            records = o.records ++ (event ∷ []);
            progress = queued o.records event l.machine o.progress;
            order = Kept-snoc event o.order;
            counted = omega (arith, o.counted, length-append o.records (event ∷ []));
            bounded = omega (arith, length-append l.machine.hub.buf (event ∷ []));
          })
  ]

  count_enqueued-IsOrdered : (l : Ledger E) → IsOrdered l → IsOrdered (act counts_enqueued l)
  unfolding act count_enqueued
  count_enqueued-IsOrdered l o = elim (Bool-cases (l.machine.to_count == 0)) [
    | inl e ↦ rw e o
    | inr e ↦ rw e (record {
      records = o.records;
      progress = like o.records l.machine _ refl refl refl o.progress;
      order = o.order;
      counted = ground (arith, o.counted, e);
      bounded = o.bounded;
    })
  ]

  count_dropped-IsOrdered : (l : Ledger E) → IsOrdered l → IsOrdered (act counts_dropped l)
  unfolding act count_dropped
  count_dropped-IsOrdered l o = elim (Bool-cases (l.machine.to_drop == 0)) [
    | inl e ↦ rw e o
    | inr e ↦ rw e (record {
      records = o.records;
      progress = like o.records l.machine _ refl refl refl o.progress;
      order = o.order;
      counted = o.counted;
      bounded = o.bounded;
    })
  ]

  works-IsOrdered :
      (attempt : Attempt E) (l : Ledger E) → IsOrdered l → IsOrdered (act (works attempt) l)
  unfolding act
  works-IsOrdered attempt l o =
      let same = run_worker-SameCounts attempt l.machine in
      record {
        records = o.records;
        progress = run_worker-Progress o.records attempt l.machine o.progress;
        order = o.order;
        counted = omega (arith, o.counted, same.enqueued, same.to_count);
        bounded = omega (arith, o.bounded, same.soft_max, same.shorter);
      }

  stops-IsOrdered : (l : Ledger E) → IsOrdered l → IsOrdered (act stops l)
  unfolding act stop
  stops-IsOrdered l o =
      elim l.machine.hub.enable
        as (λ b. IsOrdered (record l {
          machine = record (l.machine) {
            hub =
                if b
                then record (l.machine.hub) { enable = false; buf_closed = true }
                else l.machine.hub;
          };
        })) [
          | true ↦ record {
            records = o.records;
            progress = like o.records l.machine _ refl refl refl o.progress;
            order = o.order;
            counted = o.counted;
            bounded = o.bounded;
          }
          | false ↦ o
        ]

  act-IsOrdered : (op : Op E) (l : Ledger E) → IsOrdered l → IsOrdered (act op l)
  act-IsOrdered (logs event) l o = logs-IsOrdered event l o
  act-IsOrdered counts_enqueued l o = count_enqueued-IsOrdered l o
  act-IsOrdered counts_dropped l o = count_dropped-IsOrdered l o
  act-IsOrdered (works attempt) l o = works-IsOrdered attempt l o
  act-IsOrdered stops l o = stops-IsOrdered l o

  run-IsOrdered_from : (ops : List (Op E)) (l : Ledger E) → IsOrdered l → IsOrdered (run ops l)
  unfolding run
  run-IsOrdered_from [] l o = o
  run-IsOrdered_from (op ∷ ops) l o = run-IsOrdered_from ops (act op l) (act-IsOrdered op l o)

abbrev pub start : {E : Type 0} → ℕ → Ledger E
start queue_size = record {
  machine = record { hub = init queue_size; worker = idle; calls = []; to_count = 0; to_drop = 0 };
  logged = [];
}

-- Whatever is logged, however the server behaves, in whatever order the steps of the program come, and
-- whenever it stops: the records that entered the queue are among the logged ones, each once and in
-- their order. The calls of LogHub.Bulk send the first of them, in batches and in their order, each
-- batch one to three times in a row, where the last batch may still be in the course of its calls;
-- the others are the queue, which holds no more than its limit. There are as many records as the
-- counter of enqueued ones says, with the calls of enqueue that are about to increment it.
pub run-IsOrdered :
    {E : Type 0} (queue_size : ℕ) (ops : List (Op E)) → IsOrdered (run ops (start queue_size))
unfolding init
run-IsOrdered queue_size ops = run-IsOrdered_from ops (start queue_size) (record {
  records = [];
  progress = record {
    over = [];
    calls = [];
    retried = nothing_sent;
    made = refl;
    whole = refl;
    retries = tt;
  };
  order = nothing;
  counted = refl;
  bounded = omega arith;
})
