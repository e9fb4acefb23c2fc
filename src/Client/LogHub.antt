-- ===== src/Client/LogHub.antt =====
-- pkg/client/logHub/logHub.go: the queue of log records and the worker that sends them in batches.
--
-- What runs under the mutex is one step, and so is each call of LogHub.Bulk and each addition to a
-- counter. The outcome of a call is given with its step. Waits between attempts and log lines are
-- left out.
pub mod Rounds
pub mod Calls
pub mod Ledger
pub mod Drain
pub mod Counts
use tacacs_plus_go.Base.{
  Bool, List, [], drop, false, if◌then◌else◌, leb, length, ltb, not, suc, take, true, zero, ℕ, ◌&&◌,
  ◌++◌, ◌+◌, ◌-◌, ◌==◌, ◌∷◌,
}

abbrev pub default_soft_max_queue_size : ℕ
default_soft_max_queue_size = 100000

abbrev pub max_bulk_size : ℕ
max_bulk_size = 300

abbrev pub worker_retry_max : ℕ
worker_retry_max = 2

pub record Hub (E : Type 0) : Type 0 where
  pub enable : Bool
  pub buf : List E
  pub buf_closed : Bool
  pub soft_max_queue : ℕ
  pub enqueued : ℕ
  pub sent : ℕ
  pub dropped_full : ℕ
  pub failed_final : ℕ
  pub worker_panic : ℕ

-- The response of Bulk: its two counts, and whether each item succeeded.
pub record BulkResponse : Type 0 where
  pub success_count : ℕ
  pub failure_count : ℕ
  pub items : List Bool

-- One attempt: the server's response to the batch, an error, or a panic in the call.
pub data Attempt (E : Type 0) : Type 0 where
  responds : (List E → BulkResponse) → Attempt E
  fails : Attempt E
  panics : Attempt E

pub data Pull (E : Type 0) : Type 0 where
  -- the worker waits for a signal
  waits : Pull E
  finished : Pull E
  batch : List E → Hub E → Pull E

-- Where the worker is: before a round, with a batch and the retries left, with the two counts of a
-- response, with a count of failures, in the deferred recover, or at its end.
pub data Worker (E : Type 0) : Type 0 where
  idle : Worker E
  sending : ℕ → List E → Worker E
  answered : ℕ → ℕ → Worker E
  failing : ℕ → Worker E
  recovering : Worker E
  ended : Worker E

-- The queue with its worker, the calls of LogHub.Bulk, and the calls of enqueue that have left the
-- mutex and not yet added to their counter.
pub record Machine (E : Type 0) : Type 0 where
  pub hub : Hub E
  pub worker : Worker E
  pub calls : List (List E)
  pub to_count : ℕ
  pub to_drop : ℕ

abbrev pub successes : List Bool → ℕ
successes [] = 0
successes (true ∷ items) = suc (successes items)
successes (false ∷ items) = successes items

-- The counts of a response, from the items where it has none, and the whole batch where it has no
-- items either.
unfoldable pub count_response : ℕ → BulkResponse → ℕ × ℕ
count_response n r =
    if r.success_count == 0 && r.failure_count == 0
    then elim r.items [
      | [] ↦ (n, 0)
      | item ∷ items ↦ (successes (item ∷ items), length (item ∷ items) - successes (item ∷ items))
    ]
    else (r.success_count, r.failure_count)

module _ {E : Type 0} where
  -- Init, with a queue size that is positive or stands for the default.
  unfoldable pub init : ℕ → Hub E
  init queue_size = record {
    enable = true;
    buf = [];
    buf_closed = false;
    soft_max_queue = if queue_size == 0 then default_soft_max_queue_size else queue_size;
    enqueued = 0;
    sent = 0;
    dropped_full = 0;
    failed_final = 0;
    worker_panic = 0;
  }

  -- enqueue up to the end of its mutex.
  unfoldable pub enqueue : E → Machine E → Machine E
  enqueue event m =
      if not m.hub.enable
      then m
      else if m.hub.buf_closed
      then m
      else if leb m.hub.soft_max_queue (length m.hub.buf)
      then record m { to_drop = m.to_drop + 1 }
      else record m {
        hub = record (m.hub) { buf = m.hub.buf ++ (event ∷ []) };
        to_count = m.to_count + 1;
      }

  -- Its additions to the counters, behind the mutex.
  unfoldable pub count_enqueued : Machine E → Machine E
  count_enqueued m = if m.to_count == 0 then m else record m {
    hub = record (m.hub) { enqueued = m.hub.enqueued + 1 };
    to_count = m.to_count - 1;
  }

  unfoldable pub count_dropped : Machine E → Machine E
  count_dropped m = if m.to_drop == 0 then m else record m {
    hub = record (m.hub) { dropped_full = m.hub.dropped_full + 1 };
    to_drop = m.to_drop - 1;
  }

  -- The part of Stop that other goroutines see. A second call finds Enable false.
  unfoldable pub stop : Hub E → Hub E
  stop h = if h.enable then record h { enable = false; buf_closed = true } else h

  abbrev pub batch_size : Hub E → ℕ
  batch_size h = if ltb max_bulk_size (length h.buf) then max_bulk_size else length h.buf

  unfoldable pub pull_batch : Hub E → Pull E
  pull_batch h = elim h.buf [
    | [] ↦ if h.buf_closed then finished else waits
    | event ∷ events ↦
        batch (take (batch_size h) h.buf) (record h { buf = drop (batch_size h) h.buf })
  ]

  -- sendBulk up to its first attempt.
  unfoldable pub send_bulk : List E → Worker E
  send_bulk [] = idle
  send_bulk (event ∷ events) = sending worker_retry_max (event ∷ events)

  -- What follows an attempt: a response is counted, an error is followed by the next attempt, and
  -- after the last one the whole batch has failed. A panic is recovered by workerIteration.
  unfoldable pub after_attempt : ℕ → List E → Attempt E → Worker E
  after_attempt left events (responds r) =
      let (success, failure) = count_response (length events) (r events) in answered success failure
  after_attempt zero events fails = failing (length events)
  after_attempt (suc left) events fails = sending left events
  after_attempt left events panics = recovering

  unfoldable pub start_round : Machine E → Machine E
  start_round m = elim (pull_batch m.hub) [
    | waits ↦ m
    | finished ↦ record m { worker = ended }
    | batch events h ↦ record m { hub = h; worker = send_bulk events }
  ]

  -- The next step of runWorker, with the outcome of the call if it makes one.
  unfoldable pub worker_step : Attempt E → Worker E → Machine E → Machine E
  worker_step attempt idle m = start_round m
  worker_step attempt (sending left events) m = record m {
    worker = after_attempt left events attempt;
    calls = m.calls ++ (events ∷ []);
  }
  worker_step attempt (answered success failure) m = record m {
    hub = record (m.hub) { sent = m.hub.sent + success };
    worker = failing failure;
  }
  worker_step attempt (failing n) m = record m {
    hub = record (m.hub) { failed_final = m.hub.failed_final + n };
    worker = idle;
  }
  worker_step attempt recovering m = record m {
    hub = record (m.hub) { worker_panic = m.hub.worker_panic + 1 };
    worker = idle;
  }
  worker_step attempt ended m = m

  unfoldable pub run_worker : Attempt E → Machine E → Machine E
  run_worker attempt m = worker_step attempt m.worker m
