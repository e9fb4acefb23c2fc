-- ===== src/Client/LogHub/Calls.antt =====
-- The calls of LogHub.Bulk that the worker of pkg/client/logHub makes.
use tacacs_plus_go.Base.{
  List, [], ap, append-nil, append_assoc, arith, inl, inr, refl, subst, suc, sym, take-append-drop,
  zero, ℕ, ◌++◌, ◌+◌, ◌-◌, ◌∙◌, ◌∷◌, ◌≡◌, ◌≤◌,
}
use tacacs_plus_go.Client.LogHub.{
  Attempt, Machine, Worker, after_attempt, answered, batch_size, ended, failing, fails, idle,
  panics, recovering, responds, run_worker, sending, start_round, worker_step,
}
use tacacs_plus_go.Client.LogHub.Rounds.{start_round_cases, taken}

abbrev pub copies : {A : Type 0} → ℕ → A → List A
copies zero x = []
copies (suc n) x = x ∷ copies n x

-- Calls that send the records in batches, in their order, each batch one to three times in a row.
pub data Retried {E : Type 0} : List (List E) → List E → Type 0 where
  nothing_sent : Retried [] []
  sends :
      {calls : List (List E)} {events : List E} (n : ℕ) (b : List E)
      → 1 ≤ n
      → n ≤ 3
      → Retried calls events
      → Retried (calls ++ copies n b) (events ++ b)

-- The records that the worker is sending, and how often it has sent them.
abbrev pub held : {E : Type 0} → Worker E → List E
held idle = []
held (sending left b) = b
held (answered success failure) = []
held (failing n) = []
held recovering = []
held ended = []

abbrev pub under_way : {E : Type 0} → Worker E → List (List E)
under_way idle = []
under_way (sending left b) = copies (2 - left) b
under_way (answered success failure) = []
under_way (failing n) = []
under_way recovering = []
under_way ended = []

abbrev pub Retries : {E : Type 0} → Worker E → Type 0
Retries idle = Unit
Retries (sending left b) = left ≤ 2
Retries (answered success failure) = Unit
Retries (failing n) = Unit
Retries recovering = Unit
Retries ended = Unit

-- Of the records, some have been sent for good, some are being sent, and the others are queued.
pub record Progress {E : Type 0} (records : List E) (m : Machine E) : Type 0 where
  pub over : List E
  pub calls : List (List E)
  pub retried : Retried calls over
  pub made : m.calls ≡ calls ++ under_way m.worker
  pub whole : over ++ (held m.worker ++ m.hub.buf) ≡ records
  pub retries : Retries m.worker

copies-snoc : {A : Type 0} (n : ℕ) (x : A) → copies n x ++ (x ∷ []) ≡ x ∷ copies n x
copies-snoc zero x = refl
copies-snoc (suc n) x = ap (λ xs. x ∷ xs) (copies-snoc n x)

module _ {E : Type 0} where
  called :
      (calls : List (List E)) (n : ℕ) (b : List E)
      → (calls ++ copies n b) ++ (b ∷ []) ≡ calls ++ copies (suc n) b
  called calls n b =
      append_assoc calls (copies n b) (b ∷ []) ∙ ap (λ t. calls ++ t) (copies-snoc n b)

  -- The last attempt at a batch.
  sent_for_good :
      (records : List E) (m : Machine E) (left : ℕ) (b : List E) (worker : Worker E)
      → m.worker ≡ sending left b
      → held worker ≡ []
      → under_way worker ≡ []
      → Retries worker
      → Progress records m
      → Progress records (record m { worker = worker; calls = m.calls ++ (b ∷ []) })
  sent_for_good records m left b worker at h u fine p =
      let le : left ≤ 2 = subst Retries at p.retries in
      let n = suc (2 - left) in
      record {
        over = p.over ++ b;
        calls = p.calls ++ copies n b;
        retried = sends n b (omega arith) (omega arith) p.retried;
        made =
            ap (λ t. t ++ (b ∷ [])) (p.made ∙ ap (λ w. p.calls ++ under_way w) at)
            ∙ called p.calls (2 - left) b
            ∙ sym (append-nil (p.calls ++ copies n b))
            ∙ ap (λ t. (p.calls ++ copies n b) ++ t) (sym u);
        whole =
            ap (λ t. (p.over ++ b) ++ (t ++ m.hub.buf)) h
            ∙ append_assoc p.over b m.hub.buf
            ∙ ap (λ w. p.over ++ (held w ++ m.hub.buf)) (sym at)
            ∙ p.whole;
        retries = fine;
      }

  retries_again :
      (records : List E) (m : Machine E) (left : ℕ) (b : List E)
      → m.worker ≡ sending (suc left) b
      → Progress records m
      → Progress records (record m { worker = sending left b; calls = m.calls ++ (b ∷ []) })
  retries_again records m left b at p =
      let le : suc left ≤ 2 = subst Retries at p.retries in
      let n : suc (2 - suc left) ≡ 2 - left = omega arith in
      record {
        over = p.over;
        calls = p.calls;
        retried = p.retried;
        made =
            ap (λ t. t ++ (b ∷ [])) (p.made ∙ ap (λ w. p.calls ++ under_way w) at)
            ∙ called p.calls (2 - suc left) b
            ∙ ap (λ k. p.calls ++ copies k b) n;
        whole = ap (λ w. p.over ++ (held w ++ m.hub.buf)) (sym at) ∙ p.whole;
        retries = omega arith;
      }

  after_attempt-Progress :
      (records : List E) (m : Machine E) (left : ℕ) (b : List E) (attempt : Attempt E)
      → m.worker ≡ sending left b
      → Progress records m
      → Progress records
          (record m { worker = after_attempt left b attempt; calls = m.calls ++ (b ∷ []) })
  unfolding after_attempt
  after_attempt-Progress records m left b (responds r) at p =
      sent_for_good records m left b _ at refl refl tt p
  after_attempt-Progress records m zero b fails at p =
      sent_for_good records m zero b _ at refl refl tt p
  after_attempt-Progress records m (suc left) b fails at p = retries_again records m left b at p
  after_attempt-Progress records m left b panics at p =
      sent_for_good records m left b _ at refl refl tt p

  start_round-Progress :
      (records : List E) (m : Machine E)
      → m.worker ≡ idle
      → Progress records m
      → Progress records (start_round m)
  unfolding taken
  start_round-Progress records m at p =
      let n = batch_size m.hub in
      let made = p.made ∙ ap (λ w. p.calls ++ under_way w) at in
      let whole : p.over ++ m.hub.buf ≡ records =
        ap (λ w. p.over ++ (held w ++ m.hub.buf)) (sym at) ∙ p.whole in
      elim (start_round_cases m) [
        | inl (_, _, e) ↦ subst (Progress records) (sym e) p
        | inr (inl (_, _, e)) ↦ subst (Progress records) (sym e) (record {
          over = p.over;
          calls = p.calls;
          retried = p.retried;
          made = made;
          whole = whole;
          retries = tt;
        })
        | inr (inr (_, e)) ↦ subst (Progress records) (sym e) (record {
          over = p.over;
          calls = p.calls;
          retried = p.retried;
          made = made;
          whole = ap (λ t. p.over ++ t) (take-append-drop n m.hub.buf) ∙ whole;
          retries = omega arith;
        })
      ]

  -- A worker that counts leaves the records as they are.
  counts-Progress :
      (records : List E) (m m' : Machine E)
      → (m'.calls ≡ m.calls) × (m'.hub.buf ≡ m.hub.buf)
      → held m'.worker ≡ held m.worker
      → under_way m'.worker ≡ under_way m.worker
      → Retries m'.worker
      → Progress records m
      → Progress records m'
  counts-Progress records m m' (same, queue) h u fine p = record {
    over = p.over;
    calls = p.calls;
    retried = p.retried;
    made = same ∙ p.made ∙ ap (λ t. p.calls ++ t) (sym u);
    whole =
        ap (λ t. p.over ++ (t ++ m'.hub.buf)) h
        ∙ ap (λ t. p.over ++ (held m.worker ++ t)) queue
        ∙ p.whole;
    retries = fine;
  }

  worker_step-Progress :
      (records : List E) (attempt : Attempt E) (worker : Worker E) (m : Machine E)
      → m.worker ≡ worker
      → Progress records m
      → Progress records (worker_step attempt worker m)
  unfolding worker_step
  worker_step-Progress records attempt idle m at p = start_round-Progress records m at p
  worker_step-Progress records attempt (sending left b) m at p =
      after_attempt-Progress records m left b attempt at p
  worker_step-Progress records attempt (answered success failure) m at p =
      counts-Progress records m _ (refl, refl) (sym (ap held at)) (sym (ap under_way at)) tt p
  worker_step-Progress records attempt (failing n) m at p =
      counts-Progress records m _ (refl, refl) (sym (ap held at)) (sym (ap under_way at)) tt p
  worker_step-Progress records attempt recovering m at p =
      counts-Progress records m _ (refl, refl) (sym (ap held at)) (sym (ap under_way at)) tt p
  worker_step-Progress records attempt ended m at p = p

  pub run_worker-Progress :
      (records : List E) (attempt : Attempt E) (m : Machine E)
      → Progress records m
      → Progress records (run_worker attempt m)
  unfolding run_worker
  run_worker-Progress records attempt m p = worker_step-Progress records attempt m.worker m refl p

  -- Machines with the same worker, calls and queue.
  pub like :
      (records : List E) (m m' : Machine E)
      → m'.calls ≡ m.calls
      → m'.worker ≡ m.worker
      → m'.hub.buf ≡ m.hub.buf
      → Progress records m
      → Progress records m'
  like records m m' same at queue p =
      counts-Progress records m m' (same, queue) (ap held at) (ap under_way at)
        (subst Retries (sym at) p.retries) p

  pub queued :
      (records : List E) (event : E) (m : Machine E)
      → Progress records m
      → Progress (records ++ (event ∷ [])) (record m {
        hub = record (m.hub) { buf = m.hub.buf ++ (event ∷ []) };
        to_count = m.to_count + 1;
      })
  queued records event m p = record {
    over = p.over;
    calls = p.calls;
    retried = p.retried;
    made = p.made;
    whole =
        ap (λ t. p.over ++ t) (sym (append_assoc (held m.worker) m.hub.buf (event ∷ [])))
        ∙ sym (append_assoc p.over (held m.worker ++ m.hub.buf) (event ∷ []))
        ∙ ap (λ t. t ++ (event ∷ [])) p.whole;
    retries = p.retries;
  }
