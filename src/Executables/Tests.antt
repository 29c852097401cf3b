-- ===== src/Executables/Tests.antt =====
-- A dispatcher that serves one definition and migrates an older one, run on a small session store.
use entourage.Prelude.{
  ℕ, suc, ◌+◌, ◌≤◌, String, none, some, List, [], ◌∷◌, true, false, ◌≡◌, ◌≢◌, refl, arith, Result,
  returns, raises, lookup, assign, find, select, update, decimal, length, min,
}
use entourage.Mail.{Event}
use entourage.Mail.Json.{obj, null}
use entourage.Mail.Fields.{end}
use entourage.Sessions.Types.{Store, Activation, seconds, empty, Error}
use entourage.Sessions.Table.{session, set_session, has_input, pending, definition, is_bound}
use entourage.Sessions.Ready.{has_mail, ready_clause, is_ready}
use entourage.Sessions.Mailing.{bind_definition, create, append, append_event, append_id, add_input}
use entourage.Sessions.Claim.{
  Request, claim, least_recent, candidate, next_row, deliver_deadline, max_claim, take_lease,
}
use entourage.Sessions.Checkpoint.{
  commit, release, retry, holder, validate, create_children, incorporate, incorporate_one,
  publish_all,
}
use entourage.Sessions.Valid.{IsValid}
use entourage.Sessions.Run.{Call, binds, creates, appends, step, run, run-IsValid_from_empty}
use entourage.Executables.Types.{
  Handler, proposal, Executable, Contract, Dispatcher, Failure, Policy, key_error, handler_error,
  store_error,
}
use entourage.Executables.Context as Staged
use entourage.Executables.Context.{send, reply, spawn, propose}
use entourage.Executables.Registry.{
  last_colon, contract, new_dispatcher, register, add_upgrades, policy, names,
}
use entourage.Executables.Registry.Consistent.{IsConsistent, register-IsConsistent}
use entourage.Executables.Dispatch.{
  Readings, Turn, service, checked, attempt_step, backoff, give_back, serve, scan, run_once, drain,
  run_until_idle,
}
use entourage.Executables.Dispatch.Trace.{Trace, run_once_refines}
use entourage.Executables.Dispatch.Budget.{drain_bounds, backoff_doubles}
use entourage.Executables.Dispatch.Failed.{failed_step_keeps_mail}
use entourage.Executables.Dispatch.Scan.{Rotated, run_once-ne-key_error, run_once-Rotated}
use entourage.Executables.Watch.{watch, run_forever}

-- Opening this opens the store.
store_machine : Store → List Call → Store
unfolding run step bind_definition create append append_event append_id add_input claim least_recent
    candidate next_row deliver_deadline max_claim take_lease commit release retry holder validate
    create_children incorporate incorporate_one publish_all session set_session has_input pending
    definition is_bound has_mail ready_clause is_ready find select update decimal
store_machine = run

-- Opening this opens the dispatcher.
machine : (Failure → String) → ℕ → Dispatcher → Store → Readings → Turn
unfolding store_machine last_colon contract new_dispatcher register add_upgrades policy service
    checked attempt_step backoff give_back serve scan run_once drain run_until_idle lookup assign
    propose Staged.send Staged.request Staged.reply Staged.spawn watch run_forever
machine = run_once

abbrev repr : Failure → String
repr (handler_error text) = text
repr f = "error"

abbrev dumps : Contract → String
dumps c = c.entrypoint

-- A handler that incorporates its mail and completes, and one that raises.
abbrev ids : List Event → List String
ids [] = []
ids (e ∷ es) = elim e.event_id [ none ↦ ids es | some id ↦ id ∷ ids es ]

abbrev finishing : Handler
finishing c state mail = returns (proposal (propose c state (ids mail) none true none))

abbrev failing : Handler
failing c state mail = raises "boom"

abbrev made_of : Handler → Executable
made_of handler = record {
  definition = "job:v2";
  resume = handler;
  entrypoint = "resume";
  state_schema = 1;
  config = obj end;
  development = false;
  source = some "job.py";
  fingerprints = "f00d" ∷ [];
  upgrades = record { key = "job:v1"; value = failing } ∷ [];
}

abbrev start : Dispatcher
start = record {
  max_events = 64;
  lease_seconds = seconds 30;
  max_attempts = some 3;
  worker = "w";
  session = none;
  definitions = [];
  upgrades = [];
  policies = [];
  cursor = 0;
}

started : new_dispatcher 64 (seconds 30) (some 3) (some "w") "host:1" none ≡ returns start
unfolding machine
started = refl

abbrev registered : Handler → Result Failure (Dispatcher × Store)
registered handler = register dumps start empty (made_of handler) none none

abbrev dispatcher_of : Result Failure (Dispatcher × Store) → Dispatcher
dispatcher_of (returns (d, db)) = d
dispatcher_of (raises f) = start

abbrev store_of : Result Failure (Dispatcher × Store) → Store
store_of (returns (d, db)) = db
store_of (raises f) = empty

abbrev working : Dispatcher
working = dispatcher_of (registered finishing)

abbrev broken : Dispatcher
broken = dispatcher_of (registered failing)

was_registered :
    (h : Handler) → registered h ≡ returns (dispatcher_of (registered h), store_of (registered h))
unfolding machine
was_registered h = refl

names_served : names working ≡ "job:v2" ∷ "job:v1" ∷ []
unfolding machine
names_served = refl

start-IsConsistent : IsConsistent start
unfolding lookup
start-IsConsistent = record {
  served = λ name h. cc;
  upgraded = λ name u h. cc;
  apart = λ name h. refl;
}

register-IsConsistent_example : IsConsistent working
register-IsConsistent_example =
    register-IsConsistent dumps start empty (made_of finishing) none none working
      (store_of (registered finishing)) (was_registered finishing) start-IsConsistent

broken-IsConsistent : IsConsistent broken
broken-IsConsistent =
    register-IsConsistent dumps start empty (made_of failing) none none broken
      (store_of (registered failing)) (was_registered failing) start-IsConsistent

abbrev message : Event
message = record {
  event_id = some "m1";
  kind = some "user";
  source = none;
  request_id = none;
  reply_to = none;
  payload = null;
}

abbrev script : List Call
script = binds "job:v2" "resume" ∷ creates "s" "job:v2" (obj end) ∷ appends "s" message ∷ []

abbrev store : Store
store = run empty script

store-IsValid : IsValid store
store-IsValid = run-IsValid_from_empty script

abbrev readings : Readings
readings = record {
  claimed = λ k. 10;
  token = λ k. "t1";
  activation_id = "a1";
  committed = 12;
  held = 13;
  released = 12;
  retried = 13;
}

served_once :
    (run_once repr 1 working store readings).result
    ≡ returns (some (record { session_id = "s"; committed = true; error = none }))
unfolding machine
served_once = refl

run_once_refines_example :
    (cs : List Call) × Trace working store cs
    × ((run_once repr 1 working store readings).store ≡ run store cs)
run_once_refines_example = run_once_refines repr 1 working store readings

run_once-Rotated_example :
    Rotated repr 1 working store readings
      (run_once repr 1 working store readings)
      (record { session_id = "s"; committed = true; error = none })
run_once-Rotated_example =
    run_once-Rotated repr 1 working store readings
      (record { session_id = "s"; committed = true; error = none }) served_once

run_once-ne-key_error_example :
    ((run_once repr 1 broken store readings).result ≢ raises key_error)
    × ((run_once repr 1 broken store readings).result ≢ raises (store_error Error.key_error))
run_once-ne-key_error_example =
    run_once-ne-key_error repr 1 broken store readings broken-IsConsistent store-IsValid

drain_bounds_example :
    (length (drain repr 1 5 0 (λ i. readings) working store).results ≤ 5)
    × IsValid (drain repr 1 5 0 (λ i. readings) working store).store
drain_bounds_example = drain_bounds repr 1 5 0 (λ i. readings) working store store-IsValid

backoff_doubles_example :
    (backoff 1000 (seconds 30000) 1 ≡ returns (seconds (min 30000 1000)))
    × (n : ℕ) × (m : ℕ) × (backoff 1000 (seconds 30000) (suc 4) ≡ returns (seconds n))
    × (backoff 1000 (seconds 30000) (suc (suc 4)) ≡ returns (seconds m))
    × (m ≡ min 30000 (n + n))
    × (n ≤ m)
    × (m ≤ 30000)
backoff_doubles_example = backoff_doubles 1000 30000 4 (omega arith)

-- The claimed activation of the broken dispatcher, and its failed step.
abbrev activation : Activation
activation = record {
  session_id = "s";
  executable = "job:v2";
  token = "t1";
  state = obj end;
  events = message ∷ [];
  has_more = false;
  attempt = 1;
  last_error = none;
}

abbrev policy_used : Policy
policy_used = record { lease_seconds = seconds 30; max_attempts = some 3 }

abbrev request_used : Request
request_used = record {
  lease_seconds = seconds 30;
  executable = some "job:v2";
  max_events = some 64;
  session_id = none;
  worker = some "w";
  max_attempts = some 3;
}

abbrev claimed_store : Store
claimed_store = step store (Call.claims request_used 10 "t1")

failed_once :
    (serve repr 1 broken claimed_store "job:v2" policy_used activation readings).result
    ≡ returns
        (some (record { session_id = "s"; committed = false; error = some (handler_error "boom") }))
unfolding machine
failed_once = refl

failed_step_keeps_mail_example :
    ((serve repr 1 broken claimed_store "job:v2" policy_used activation readings).store.inputs
      ≡ claimed_store.inputs)
    × (◌≡◌ {A = String} "s" activation.session_id)
failed_step_keeps_mail_example =
    failed_step_keeps_mail repr 1 broken claimed_store "job:v2" policy_used activation readings
      (record { session_id = "s"; committed = false; error = some (handler_error "boom") })
      failed_once refl
