-- ===== src/Sessions/Tests/Claims.antt =====
-- Claims and appends on the small history (`claim` and `append` of sessions.py).
use entourage.Prelude.{Option, none, some, [], ◌∷◌, true, false, ◌≡◌, ◌≢◌, refl, returns, ◌++◌}
use entourage.Mail.Json.{obj}
use entourage.Mail.Fields.{end}
use entourage.Sessions.Types.{Store, Session, Activation, empty}
use entourage.Sessions.Table.{session, pending}
use entourage.Sessions.Ready.{is_ready}
use entourage.Sessions.Mailing.{append, limited}
use entourage.Sessions.Claim.{claim, eligible, more_than}
use entourage.Sessions.Valid.{IsValid}
use entourage.Sessions.Service.Fairness.{Fairest, claim-Fairest, claim_excludes}
use entourage.Sessions.Service.Total.{claim_total, claim_serves}
use entourage.Sessions.Service.Batches.{claim_batch}
use entourage.Sessions.Service.Senders.{append_queues, append_wakes}
use entourage.Sessions.Run.{binds, creates, claims, step, run, run-IsValid_from_empty}
use entourage.Sessions.Tests.{
  machine, message, request, script, waiting_store, held_store, holder_of, claimed, waiting_IsValid,
  waiting_row, held_row, waiting_found,
}

claim-Fairest_example : (row : Session) × ("s" ≡ row.id) × Fairest request waiting_store 10 row
claim-Fairest_example =
    claim-Fairest waiting_store request 10 "t1" holder_of held_store waiting_IsValid claimed

-- A second session, so that a claim has another one to lease.
abbrev two_store : Store
two_store = step held_store (creates "other" "d:v1" (obj end))

two_IsValid : IsValid two_store
unfolding run
two_IsValid =
    run-IsValid_from_empty
      (script ++ claims request 10 "t1" ∷ creates "other" "d:v1" (obj end) ∷ [])

abbrev other_holder : Activation
other_holder = record {
  session_id = "other";
  executable = "d:v1";
  token = "t2";
  state = obj end;
  events = [];
  has_more = false;
  attempt = 1;
  last_error = none;
}

other_claimed :
    claim two_store request 12 "t2"
    ≡ returns (some other_holder, step two_store (claims request 12 "t2"))
unfolding machine
other_claimed = refl

two_found : session two_store "s" ≡ some held_row
unfolding machine
two_found = refl

claim_excludes_example : other_holder.session_id ≢ "s"
claim_excludes_example =
    claim_excludes two_store request 12 "t2" other_holder (step two_store (claims request 12 "t2"))
      "s" held_row two_IsValid two_found refl other_claimed

claim_total_example :
    (got : Option Activation) × (db' : Store) × (claim waiting_store request 10 "t1"
      ≡ returns (got, db'))
claim_total_example = claim_total waiting_store request 10 "t1" 30 waiting_IsValid refl refl refl

waiting_eligible : eligible request waiting_store 10 waiting_row ≡ true
unfolding machine
waiting_eligible = refl

claim_serves_example :
    (a : Activation) × (db' : Store) × (claim waiting_store request 10 "t1" ≡ returns (some a, db'))
claim_serves_example =
    claim_serves waiting_store request 10 "t1" 30 "s" waiting_row waiting_IsValid refl refl refl
      waiting_found waiting_eligible refl

claim_batch_example :
    (holder_of.events ≡ limited (some 1) (pending held_store "s"))
    × (holder_of.has_more ≡ more_than (some 1) (pending held_store "s"))
claim_batch_example = claim_batch waiting_store request 10 "t1" holder_of held_store claimed

abbrev bound_store : Store
bound_store = run empty (binds "d:v1" "{}" ∷ creates "s" "d:v1" (obj end) ∷ [])

taken : append bound_store "s" message ≡ returns (true, waiting_store)
unfolding machine
taken = refl

append_queues_example :
    (pending waiting_store "s" ≡ pending bound_store "s" ++ message ∷ [])
    × (session waiting_store "s" ≡ session bound_store "s")
append_queues_example = append_queues bound_store waiting_store "s" "s" message taken

bound_found : session bound_store "s" ≡ some waiting_row
unfolding machine
bound_found = refl

append_wakes_example :
    (session waiting_store "s" ≡ some waiting_row) × (is_ready waiting_store 10 waiting_row ≡ true)
append_wakes_example =
    append_wakes bound_store waiting_store "s" message waiting_row 10 taken bound_found refl refl
