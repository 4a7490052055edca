-- ===== src/Audit/Tests.antt =====
-- The audit queue on concrete inputs.
use v_machine.Prelude.{
  ℕ, ◌≡◌, refl, String, Bool, true, false, Option, none, some, List, [], ◌∷◌, ◌++◌, arith,
}
use v_machine.Audit.{
  Request, Entry, make_entry, is_missing, System, Event, enqueued, shutdown, got, timed_out, run,
  entries_of, turn, take, wait_in_vain, flush, flush_batch, enqueue_audit_entry,
  enqueue_shutdown_signal, drain_audit_queue,
}
use v_machine.Audit.Delivery.{concat, held, accepted, run-held, drain_delivers}
use v_machine.Audit.Batches.{IsBounded, run-IsBounded, refused_batch_lost}

abbrev request : Option String → Request
request action = record {
  actor = none;
  action = action;
  resource_type = some "vm";
  resource_id = some "s1";
  status = "success";
  request_id = none;
  payload = none;
}

abbrev entry : Entry
entry = record {
  id = "e";
  actor = none;
  action = some "vm.create";
  resource_type = "vm";
  resource_id = some "s1";
  status = "success";
  request_id = none;
  payload = none;
}

abbrev started : System
started = record { queue = []; batch = []; running = true; commits = [] }

abbrev accepts : ℕ → List (List Entry) → List Entry → Bool
accepts attempt commits batch = false

abbrev refuses : ℕ → List (List Entry) → List Entry → Bool
refuses attempt commits batch = true

-- each first transaction of a filled batch
abbrev slow : List (List Entry) → List Entry → Bool
slow commits batch = true

abbrev events : List Event
events =
    enqueued "a" (request (some "vm.create"))
    ∷ enqueued "b" (request none)
    ∷ got
    ∷ timed_out
    ∷ enqueued "c" (request (some "vm.delete"))
    ∷ shutdown
    ∷ []

run-held_example : held (run accepts slow events started) ≡ held started ++ accepted events
run-held_example = run-held accepts slow (λ attempt commits batch. refl) events started

no_batch : (run accepts slow events started).batch ≡ []
unfolding run turn take flush flush_batch enqueue_audit_entry enqueue_shutdown_signal make_entry
    is_missing wait_in_vain
no_batch = refl

drain_delivers_example :
    let out = drain_audit_queue accepts slow (run accepts slow events started) in
    (out.0 ≡ true) × (out.1.queue ≡ []) × (concat out.1.commits ≡ held started ++ accepted events)
drain_delivers_example =
    drain_delivers accepts slow (λ attempt commits batch. refl) events started no_batch

run-IsBounded_example : IsBounded (run refuses slow events started)
run-IsBounded_example =
    run-IsBounded refuses slow events started (record { room = omega arith; sized = tt })

abbrev nearly_full : System
nearly_full = record {
  queue = some entry ∷ [];
  batch =
      entry ∷ entry ∷ entry ∷ entry ∷ entry ∷ entry ∷ entry ∷ entry ∷ entry ∷ entry ∷ entry ∷ entry
      ∷ entry ∷ entry ∷ entry ∷ entry ∷ entry ∷ entry ∷ entry ∷ [];
  running = true;
  commits = [];
}

refused_batch_lost_example :
    let s' = turn refuses slow got nearly_full in
    (held s' ≡ concat [] ++ entries_of []) × ((run refuses slow events s').commits ≡ [])
refused_batch_lost_example =
    refused_batch_lost refuses slow nearly_full entry [] events refl refl (omega arith) refl
