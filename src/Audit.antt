-- ===== src/Audit.antt =====
-- app/services/core/audit_service.py: the audit queue, its flush worker and the drain at shutdown.
-- A commit may be refused: `refuses` says of which batches, after which commits, in the first (0) or the
-- second (1) transaction that is tried for a batch; `times_out` says where the first ends in a TimeoutError.
-- Ids of entries are arguments, since the source draws them at random. Queries of the log are left out.
pub mod Delivery
pub mod Batches
mod Tests
use v_machine.Prelude.{
  ℕ, String, Bool, true, false, Option, none, some, List, [], ◌∷◌, ◌++◌, leb, if◌then◌else◌, length,
  str_eq, ◌&&◌,
}
use v_machine.Prelude.Exec.{Result, ok, raise}
use v_machine.Prelude.Dict.{Dict}

abbrev pub batch_size : ℕ
batch_size = 20

-- the arguments of enqueue_audit_entry and log_audit_entry
pub record Request : Type 0 where
  pub actor : Option String
  pub action : Option String
  pub resource_type : Option String
  pub resource_id : Option String
  pub status : String
  pub request_id : Option String
  pub payload : Option (Dict String)

-- an entry of the queue, and the row that it becomes
pub record Entry : Type 0 where
  pub id : String
  pub actor : Option String
  pub action : Option String
  pub resource_type : String
  pub resource_id : Option String
  pub status : String
  pub request_id : Option String
  pub payload : Option (Dict String)

-- resource_type or "unknown"
unfoldable pub or_unknown : Option String → String
or_unknown none = "unknown"
or_unknown (some s) = if str_eq s "" then "unknown" else s

unfoldable pub make_entry : String → Request → Entry
make_entry id request = record {
  id = id;
  actor = request.actor;
  action = request.action;
  resource_type = or_unknown request.resource_type;
  resource_id = request.resource_id;
  status = request.status;
  request_id = request.request_id;
  payload = request.payload;
}

unfoldable pub is_missing : Option String → Bool
is_missing none = true
is_missing (some s) = str_eq s ""

-- The queue, where None is the signal to shut down; the worker's batch; whether the worker runs;
-- and the transactions committed.
pub record System : Type 0 where
  pub queue : List (Option Entry)
  pub batch : List Entry
  pub running : Bool
  pub commits : List (List Entry)

unfoldable pub enqueue_audit_entry : String → Request → System → System
enqueue_audit_entry id request s =
    if is_missing request.action
    then s
    else record s { queue = s.queue ++ some (make_entry id request) ∷ [] }

-- What happens: another task enqueues an entry or the signal, or the worker's `get` returns, or it
-- times out.
pub data Event : Type 0 where
  enqueued : String → Request → Event
  shutdown got timed_out : Event

-- the entries of a queue, without the signals
unfoldable pub entries_of : List (Option Entry) → List Entry
entries_of [] = []
entries_of (none ∷ queue) = entries_of queue
entries_of (some e ∷ queue) = e ∷ entries_of queue

unfoldable pub enqueue_shutdown_signal : System → System
enqueue_shutdown_signal s = record s { queue = s.queue ++ none ∷ [] }

module _ (refuses : ℕ → List (List Entry) → List Entry → Bool)
    (times_out : List (List Entry) → List Entry → Bool) where
  -- true if the transaction was committed, and false if it raised
  unfoldable pub flush_batch : ℕ → List Entry → System → Bool × System
  flush_batch attempt [] s = (true, s)
  flush_batch attempt (e ∷ entries) s =
      if refuses attempt s.commits (e ∷ entries)
      then (false, s)
      else (true, record s { commits = s.commits ++ (e ∷ entries) ∷ [] })

  unfoldable pub log_audit_entry :
      String → Request → System → Result String (Option String) × System
  log_audit_entry id request s =
      if is_missing request.action
      then (ok none, s)
      else let (stored, s') = flush_batch 0 (make_entry id request ∷ []) s in
        if stored then (ok (some id), s') else (raise "the database refused the entry", s')

  -- flush the batch and clear it; an exception ends the worker, and the batch goes with it
  unfoldable pub flush : ℕ → System → System
  flush attempt s =
      let (stored, s') = flush_batch attempt s.batch s in
      record s' { batch = []; running = s.running && stored }

  -- flush the batch that a new entry has filled: a TimeoutError of the first transaction is caught where
  -- that of `get` is, and the batch is flushed again
  unfoldable pub flush_filled : System → System
  flush_filled s = if times_out s.commits s.batch then flush 1 s else flush 0 s

  -- one turn of the worker's loop in which `get` returns the head of the queue
  unfoldable pub take : System → System
  take s = elim s.queue [
    | [] ↦ s
    | none ∷ queue ↦ record (flush 0 (record s { queue = queue })) { running = false }
    | some entry ∷ queue ↦
        let s' = record s { queue = queue; batch = s.batch ++ entry ∷ [] } in
        if leb batch_size (length s'.batch) then flush_filled s' else s'
  ]

  -- one turn in which `get` times out
  unfoldable pub wait_in_vain : System → System
  wait_in_vain s = flush 0 s

  unfoldable pub turn : Event → System → System
  turn (enqueued id request) s = enqueue_audit_entry id request s
  turn shutdown s = enqueue_shutdown_signal s
  turn got s = if s.running then take s else s
  turn timed_out s = if s.running then wait_in_vain s else s

  -- audit_flush_worker, interleaved with the tasks that enqueue
  unfoldable pub run : List Event → System → System
  run [] s = s
  run (e ∷ events) s = run events (turn e s)

  -- drain_audit_queue
  unfoldable pub drain_audit_queue : System → Bool × System
  drain_audit_queue s = flush_batch 0 (entries_of s.queue) (record s { queue = [] })
