-- ===== src/Audit/Batches.antt =====
-- app/services/core/audit_service.py: the size of the worker's transactions, and a refused one.
use v_machine.Prelude.{
  ℕ, ◌+◌, ◌≤◌, ◌<◌, ◌≡◌, refl, ◌∙◌, Bool, true, false, Option, none, some, List, [], ◌∷◌, ◌++◌,
  arith, leb, length, length-append, All, All-append, if◌then◌else◌, Bool-cases, inl, inr,
}
use v_machine.Audit.{
  batch_size, Entry, is_missing, System, Event, enqueued, shutdown, got, timed_out, entries_of,
  enqueue_audit_entry, enqueue_shutdown_signal, flush_batch, flush, flush_filled, take,
  wait_in_vain, turn, run,
}
use v_machine.Audit.Delivery.{concat, held}

abbrev pub IsBatch : List Entry → Type 0
IsBatch batch = (1 ≤ length batch) × (length batch ≤ batch_size)

-- The worker's batch has room for another entry, and each transaction has between 1 and
-- `batch_size` rows.
pub record IsBounded (s : System) : Type 0 where
  pub room : length s.batch < batch_size
  pub sized : All IsBatch s.commits

module _ (refuses : ℕ → List (List Entry) → List Entry → Bool)
    (times_out : List (List Entry) → List Entry → Bool) where
  flush_batch_sized :
      (attempt : ℕ) (batch : List Entry) (s : System)
      → length batch ≤ batch_size
      → All IsBatch s.commits
      → All IsBatch (flush_batch refuses times_out attempt batch s).1.commits
  unfolding flush_batch
  flush_batch_sized attempt [] s fits h = h
  flush_batch_sized attempt (e ∷ entries) s fits h =
      elim (Bool-cases (refuses attempt s.commits (e ∷ entries))) [
        | inl refused ↦ rw (refused, flush_batch) h
        | inr accepts ↦
            rw (accepts, flush_batch) (All-append IsBatch s.commits _ h ((omega arith, fits), tt))
      ]

  flush-IsBounded :
      (attempt : ℕ) (s : System)
      → length s.batch ≤ batch_size
      → All IsBatch s.commits
      → IsBounded (flush refuses times_out attempt s)
  unfolding flush
  flush-IsBounded attempt s fits h = record {
    room = omega arith;
    sized = flush_batch_sized attempt s.batch s fits h;
  }

  flush_filled-IsBounded :
      (s : System)
      → length s.batch ≤ batch_size
      → All IsBatch s.commits
      → IsBounded (flush_filled refuses times_out s)
  unfolding flush_filled
  flush_filled-IsBounded s fits h = elim (Bool-cases (times_out s.commits s.batch)) [
    | inl again ↦ rw (again, flush_filled) (flush-IsBounded 1 s fits h)
    | inr once ↦ rw (once, flush_filled) (flush-IsBounded 0 s fits h)
  ]

  take-IsBounded :
      (s : System) (q : List (Option Entry))
      → s.queue ≡ q
      → IsBounded s
      → IsBounded (take refuses times_out s)
  unfolding take
  take-IsBounded s [] e h = rw (e, take) h
  take-IsBounded s (none ∷ queue) e h =
      let f = flush-IsBounded 0 (record s { queue = queue }) (omega (arith, h.room)) h.sized in
      rw (e, take) (record { room = f.room; sized = f.sized })
  take-IsBounded s (some entry ∷ queue) e h =
      let s' = record s { queue = queue; batch = s.batch ++ entry ∷ [] } in
      let n = length-append s.batch (entry ∷ []) in
      elim (Bool-cases (leb batch_size (length s'.batch))) [
        | inl full ↦
            rw (e, full, take) (flush_filled-IsBounded s' (omega (arith, n, h.room)) h.sized)
        | inr open_ ↦ rw (e, open_, take) (record { room = ground (arith, open_); sized = h.sized })
      ]

  either-IsBounded :
      (b : Bool) (s s' : System) → IsBounded s → IsBounded s' → IsBounded (if b then s else s')
  either-IsBounded true s s' h h' = h
  either-IsBounded false s s' h h' = h'

  turn-IsBounded : (e : Event) (s : System) → IsBounded s → IsBounded (turn refuses times_out e s)
  unfolding turn enqueue_audit_entry enqueue_shutdown_signal wait_in_vain
  turn-IsBounded (enqueued id request) s h = elim (Bool-cases (is_missing request.action)) [
    | inl refused ↦ rw (refused, enqueue_audit_entry) h
    | inr accepts ↦ rw (accepts, enqueue_audit_entry) (record { room = h.room; sized = h.sized })
  ]
  turn-IsBounded shutdown s h = record { room = h.room; sized = h.sized }
  turn-IsBounded got s h = either-IsBounded s.running _ s (take-IsBounded s s.queue refl h) h
  turn-IsBounded timed_out s h =
      either-IsBounded s.running _ s (flush-IsBounded 0 s (omega (arith, h.room)) h.sized) h

  -- Whatever happens and whatever the database refuses, the worker's batch keeps room for another
  -- entry, and no transaction is empty or larger than `batch_size`.
  pub run-IsBounded :
      (events : List Event) (s : System) → IsBounded s → IsBounded (run refuses times_out events s)
  unfolding run
  run-IsBounded [] s h = h
  run-IsBounded (e ∷ events) s h =
      run-IsBounded events (turn refuses times_out e s) (turn-IsBounded e s h)

  turn_stopped :
      (e : Event) (s : System)
      → s.running ≡ false
      → ((turn refuses times_out e s).running ≡ false)
        × ((turn refuses times_out e s).commits ≡ s.commits)
  unfolding turn enqueue_audit_entry enqueue_shutdown_signal
  turn_stopped (enqueued id request) s h = ground (arith, h)
  turn_stopped shutdown s h = ground (arith, h)
  turn_stopped got s h = ground (arith, h)
  turn_stopped timed_out s h = ground (arith, h)

  flush_refused :
      (attempt : ℕ) (batch : List Entry) (s : System)
      → 1 ≤ length batch
      → refuses attempt s.commits batch ≡ true
      → flush_batch refuses times_out attempt batch s ≡ (false, s)
  unfolding flush_batch
  flush_refused attempt [] s h r = absurd (omega (arith, h))
  flush_refused attempt (e ∷ entries) s h r = rw r refl

  -- the transaction that decides on a filled batch is refused
  abbrev pub IsRefused : List (List Entry) → List Entry → Type 0
  IsRefused commits batch = refuses (if times_out commits batch then 1 else 0) commits batch ≡ true

  filled_refused :
      (s : System)
      → 1 ≤ length s.batch
      → IsRefused s.commits s.batch
      → flush_filled refuses times_out s ≡ record s { batch = []; running = false }
  unfolding flush_filled flush
  filled_refused s h r = elim (Bool-cases (times_out s.commits s.batch)) [
    | inl again ↦ ground (arith, again, flush_refused 1 s.batch s h, r)
    | inr once ↦ ground (arith, once, flush_refused 0 s.batch s h, r)
  ]

  run_stopped :
      (events : List Event) (s : System)
      → s.running ≡ false
      → (run refuses times_out events s).commits ≡ s.commits
  unfolding run
  run_stopped [] s h = refl
  run_stopped (e ∷ events) s h =
      let t = turn_stopped e s h in run_stopped events (turn refuses times_out e s) t.0 ∙ t.1

  -- Where an entry fills the batch, and the transaction that is tried for it is refused, or ends in a
  -- TimeoutError and the second one, which is then tried, is refused, the worker ends: the entry and
  -- those before it leave the queue and the batch, and whatever happens afterwards, the worker commits
  -- nothing.
  pub refused_batch_lost :
      (s : System) (entry : Entry) (queue : List (Option Entry)) (events : List Event)
      → s.queue ≡ some entry ∷ queue
      → s.running ≡ true
      → batch_size ≤ length s.batch + 1
      → IsRefused s.commits (s.batch ++ entry ∷ [])
      → let s' = turn refuses times_out got s in
        (held s' ≡ concat s.commits ++ entries_of queue)
        × ((run refuses times_out events s').commits ≡ s.commits)
  unfolding turn take
  refused_batch_lost s entry queue events q runs full refused =
      let s' = record s { queue = queue; batch = s.batch ++ entry ∷ [] } in
      let n = length-append s.batch (entry ∷ []) in
      let f = filled_refused s' (omega (arith, n)) refused in
      let after = run_stopped events (turn refuses times_out got s) in
      ground (arith, q, runs, full, n, f, after)
