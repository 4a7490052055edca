-- ===== src/Audit/Delivery.antt =====
-- app/services/core/audit_service.py: which entries reach the database, and in which batches.
use mathlib.Core.List.{append-nil, append_assoc}
use v_machine.Prelude.{
  ℕ, ◌≡◌, refl, sym, ◌∙◌, ap, Bool, true, false, Option, none, some, List, [], ◌∷◌, ◌++◌, arith,
  if◌then◌else◌, Bool-cases, inl, inr,
}
use v_machine.Audit.{
  Entry, make_entry, is_missing, System, Event, enqueued, shutdown, got, timed_out, entries_of,
  enqueue_audit_entry, enqueue_shutdown_signal, flush_batch, flush, flush_filled, take,
  wait_in_vain, turn, run, drain_audit_queue,
}

abbrev pub concat : {A : Type 0} → List (List A) → List A
concat [] = []
concat (xs ∷ xss) = xs ++ concat xss

concat-append :
    {A : Type 0} (xss : List (List A)) (xs : List A) → concat (xss ++ xs ∷ []) ≡ concat xss ++ xs
concat-append [] xs = append-nil xs
concat-append (ys ∷ xss) xs =
    ap (λ l. ys ++ l) (concat-append xss xs) ∙ sym (append_assoc ys (concat xss) xs)

entries_of-append :
    (q : List (Option Entry)) (e : Entry) → entries_of (q ++ some e ∷ []) ≡ entries_of q ++ e ∷ []
unfolding entries_of
entries_of-append [] e = refl
entries_of-append (none ∷ q) e = entries_of-append q e
entries_of-append (some x ∷ q) e = ap (λ l. x ∷ l) (entries_of-append q e)

entries_of-signal : (q : List (Option Entry)) → entries_of (q ++ none ∷ []) ≡ entries_of q
unfolding entries_of
entries_of-signal [] = refl
entries_of-signal (none ∷ q) = entries_of-signal q
entries_of-signal (some x ∷ q) = ap (λ l. x ∷ l) (entries_of-signal q)

-- The entries that the system holds, in the order in which they came: those committed, then the
-- worker's batch, then those that wait in the queue.
abbrev pub held : System → List Entry
held s = concat s.commits ++ (s.batch ++ entries_of s.queue)

-- The entries that tasks enqueue, without those that have no action.
abbrev pub accepted : List Event → List Entry
accepted [] = []
accepted (enqueued id request ∷ events) =
    if is_missing request.action then accepted events else make_entry id request ∷ accepted events
accepted (shutdown ∷ events) = accepted events
accepted (got ∷ events) = accepted events
accepted (timed_out ∷ events) = accepted events

abbrev entry_of : Event → List Entry
entry_of e = accepted (e ∷ [])

accepted-cons :
    (e : Event) (events : List Event) → accepted (e ∷ events) ≡ entry_of e ++ accepted events
accepted-cons (enqueued id request) events = ground arith
accepted-cons shutdown events = refl
accepted-cons got events = refl
accepted-cons timed_out events = refl

module _ (refuses : ℕ → List (List Entry) → List Entry → Bool)
    (times_out : List (List Entry) → List Entry → Bool) where
  module _
      (never : (attempt : ℕ) (commits : List (List Entry)) (batch : List Entry)
        → refuses attempt commits batch ≡ false) where
    flush_batch_stores :
        (attempt : ℕ) (batch : List Entry) (s : System)
        → let out = flush_batch refuses times_out attempt batch s in
          (out.0 ≡ true)
          × (concat out.1.commits ≡ concat s.commits ++ batch)
          × (out.1.queue ≡ s.queue)
          × (out.1.batch ≡ s.batch)
    unfolding flush_batch
    flush_batch_stores attempt [] s = (refl, sym (append-nil _), refl, refl)
    flush_batch_stores attempt (e ∷ entries) s =
        ground (arith, never attempt s.commits (e ∷ entries), concat-append s.commits (e ∷ entries))

    flush-held : (attempt : ℕ) (s : System) → held (flush refuses times_out attempt s) ≡ held s
    unfolding flush
    flush-held attempt s =
        let f = flush_batch_stores attempt s.batch s in
        ground (arith, f, append_assoc (concat s.commits) s.batch (entries_of s.queue))

    flush_filled-held : (s : System) → held (flush_filled refuses times_out s) ≡ held s
    unfolding flush_filled
    flush_filled-held s = elim (Bool-cases (times_out s.commits s.batch)) [
      | inl again ↦ rw (again, flush_filled) (flush-held 1 s)
      | inr once ↦ rw (once, flush_filled) (flush-held 0 s)
    ]

    take-held :
        (s : System) (q : List (Option Entry))
        → s.queue ≡ q
        → held (take refuses times_out s) ≡ held s
    unfolding take entries_of
    take-held s [] e = ground (arith, e)
    take-held s (none ∷ queue) e = ground (arith, e, flush-held 0 (record s { queue = queue }))
    take-held s (some entry ∷ queue) e =
        let s' = record s { queue = queue; batch = s.batch ++ entry ∷ [] } in
        ground
          (arith, e, flush_filled-held s', append_assoc s.batch (entry ∷ []) (entries_of queue))

    turn-held : (e : Event) (s : System) → held (turn refuses times_out e s) ≡ held s ++ entry_of e
    unfolding turn enqueue_audit_entry enqueue_shutdown_signal wait_in_vain
    turn-held (enqueued id request) s = ground (
      arith,
      entries_of-append s.queue (make_entry id request),
      append-nil (held s),
      append_assoc s.batch (entries_of s.queue) (make_entry id request ∷ []),
      append_assoc (concat s.commits) (s.batch ++ entries_of s.queue) (make_entry id request ∷ []),
    )
    turn-held shutdown s = ground (arith, entries_of-signal s.queue, append-nil (held s))
    turn-held got s = ground (arith, take-held s s.queue refl, append-nil (held s))
    turn-held timed_out s = ground (arith, flush-held 0 s, append-nil (held s))

    -- As long as the database refuses nothing, the worker loses, repeats and reorders no entry: the
    -- entries held after any sequence of events are those held before, followed by those accepted
    -- since, in their order.
    pub run-held :
        (events : List Event) (s : System)
        → held (run refuses times_out events s) ≡ held s ++ accepted events
    unfolding run
    run-held [] s = sym (append-nil _)
    run-held (e ∷ events) s = ground (
      arith,
      run-held events (turn refuses times_out e s),
      turn-held e s,
      accepted-cons e events,
      append_assoc (held s) (entry_of e) (accepted events),
    )

    -- As long as the database refuses nothing, a drain when the worker holds no batch leaves the
    -- queue empty, and the database then has every entry that was held before or accepted since.
    pub drain_delivers :
        (events : List Event) (s : System)
        → (run refuses times_out events s).batch ≡ []
        → let out = drain_audit_queue refuses times_out (run refuses times_out events s) in
          (out.0 ≡ true) × (out.1.queue ≡ []) × (concat out.1.commits ≡ held s ++ accepted events)
    unfolding drain_audit_queue
    drain_delivers events s h =
        let s' = run refuses times_out events s in
        ground (
          arith,
          h,
          run-held events s,
          flush_batch_stores 0 (entries_of s'.queue) (record s' { queue = [] }),
        )
