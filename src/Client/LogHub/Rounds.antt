-- ===== src/Client/LogHub/Rounds.antt =====
-- How a round of the worker of pkg/client/logHub starts, and what its steps leave alone.
use tacacs_plus_go.Base.{
  Bool-cases, List, List-cases, [], ap, arith, drop, false, if◌then◌else◌, inl, inr, length,
  length-append, length-drop, refl, subst, sym, take, take-append-drop, true, ◌<◌, ◌∷◌, ◌≡◌, ◌≢◌,
  ◌≤◌, ◌⊎◌,
}
use tacacs_plus_go.Client.LogHub.{
  Attempt, Hub, Machine, Worker, answered, batch, batch_size, ended, failing, finished, idle,
  pull_batch, recovering, run_worker, send_bulk, sending, start_round, waits, worker_step,
}

module _ {E : Type 0} where
  -- The queue is empty, or a batch is taken from its front.
  pub pull_batch_cases :
      (h : Hub E)
      → ((h.buf ≡ []) × (pull_batch h ≡ (if h.buf_closed then finished else waits)))
        ⊎ ((h.buf ≢ [])
            × (pull_batch h
                ≡ batch (take (batch_size h) h.buf) (record h { buf = drop (batch_size h) h.buf })))
  unfolding pull_batch
  pull_batch_cases h = elim (List-cases h.buf) [
    | inl e ↦ inl (e, ground arith)
    | inr (x, ys, e) ↦ inr ((λ n. cc (e, n)), ground arith)
  ]

  send_bulk-cases : (b : List E) → b ≢ [] → send_bulk b ≡ sending 2 b
  unfolding send_bulk
  send_bulk-cases [] ne = absurd (ne refl)
  send_bulk-cases (x ∷ xs) ne = refl

  unfoldable pub taken : Machine E → Machine E
  taken m = record m {
    hub = record (m.hub) { buf = drop (batch_size m.hub) m.hub.buf };
    worker = sending 2 (take (batch_size m.hub) m.hub.buf);
  }

  -- What a round starts with: nothing to do, the end, or a batch.
  pub start_round_cases :
      (m : Machine E)
      → ((m.hub.buf ≡ []) × (m.hub.buf_closed ≡ false) × (start_round m ≡ m))
        ⊎ (((m.hub.buf ≡ [])
              × (m.hub.buf_closed ≡ true)
              × (start_round m ≡ record m { worker = ended }))
            ⊎ ((0 < length (take (batch_size m.hub) m.hub.buf)) × (start_round m ≡ taken m)))
  unfolding start_round taken
  start_round_cases m = elim (pull_batch_cases m.hub) [
    | inl (e, p) ↦ elim (Bool-cases m.hub.buf_closed) [
      | inl c ↦ inr (inl (e, c, ground (arith, p, c)))
      | inr c ↦ inl (e, c, ground (arith, p, c))
    ]
    | inr (ne, p) ↦
        let pos : 0 < length m.hub.buf = nonempty m.hub.buf ne in
        let filled : 0 < length (take (batch_size m.hub) m.hub.buf) = omega (
          arith,
          ap length (take-append-drop (batch_size m.hub) m.hub.buf),
          length-append (take (batch_size m.hub) m.hub.buf) (drop (batch_size m.hub) m.hub.buf),
          length-drop (batch_size m.hub) m.hub.buf,
          batch_size_pos m.hub pos,
        ) in
        let sends_it =
          send_bulk-cases (take (batch_size m.hub) m.hub.buf)
            (λ e. absurd (omega (arith, filled, ap length e))) in
        inr (inr (filled, ground (arith, p, sends_it)))
  ]
    where
      nonempty : (xs : List E) → xs ≢ [] → 0 < length xs
      nonempty [] ne = absurd (ne refl)
      nonempty (x ∷ xs) ne = omega arith

      batch_size_pos : (h : Hub E) → 0 < length h.buf → 0 < batch_size h
      batch_size_pos h pos = ground arith

  -- What a step of the worker leaves alone.
  pub record SameCounts (m m' : Machine E) : Type 0 where
    pub enqueued : m'.hub.enqueued ≡ m.hub.enqueued
    pub to_count : m'.to_count ≡ m.to_count
    pub soft_max : m'.hub.soft_max_queue ≡ m.hub.soft_max_queue
    pub shorter : length m'.hub.buf ≤ length m.hub.buf
    pub closed : m'.hub.buf_closed ≡ m.hub.buf_closed
    pub enable : m'.hub.enable ≡ m.hub.enable

  start_round-SameCounts : (m : Machine E) → SameCounts m (start_round m)
  unfolding taken
  start_round-SameCounts m = elim (start_round_cases m) [
    | inl (_, _, e) ↦ subst (SameCounts m) (sym e) (ground arith)
    | inr (inl (_, _, e)) ↦ subst (SameCounts m) (sym e) (ground arith)
    | inr (inr (_, e)) ↦ subst (SameCounts m) (sym e) (record {
      enqueued = refl;
      to_count = refl;
      soft_max = refl;
      shorter = omega (arith, length-drop (batch_size m.hub) m.hub.buf);
      closed = refl;
      enable = refl;
    })
  ]

  worker_step-SameCounts :
      (attempt : Attempt E) (worker : Worker E) (m : Machine E)
      → SameCounts m (worker_step attempt worker m)
  unfolding worker_step
  worker_step-SameCounts attempt idle m = start_round-SameCounts m
  worker_step-SameCounts attempt (sending left b) m = ground arith
  worker_step-SameCounts attempt (answered success failure) m = ground arith
  worker_step-SameCounts attempt (failing n) m = ground arith
  worker_step-SameCounts attempt recovering m = ground arith
  worker_step-SameCounts attempt ended m = ground arith

  pub run_worker-SameCounts :
      (attempt : Attempt E) (m : Machine E) → SameCounts m (run_worker attempt m)
  unfolding run_worker
  run_worker-SameCounts attempt m = worker_step-SameCounts attempt m.worker m
