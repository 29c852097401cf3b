-- ===== src/Sessions/Tests/Commits.antt =====
-- Commits, purges and listings on the small history (`commit`, `purge`, `list_sessions` of
-- sessions.py).
use entourage.Prelude.{
  ℕ, String, Option, none, some, [], ◌∷◌, true, false, ◌≡◌, refl, returns, ◌==◌, ◌++◌, map, All,
  update,
}
use entourage.Mail.{Event}
use entourage.Mail.Json.{obj}
use entourage.Mail.Fields.{end}
use entourage.Sessions.Types.{Session, Store, Instant}
use entourage.Sessions.Table.{session, with_id}
use entourage.Sessions.Checkpoint.{Proposal, commit, checkpoint, holds_lease}
use entourage.Sessions.Purge.{purge}
use entourage.Sessions.Valid.{IsValid}
use entourage.Sessions.Service.Checkpoints.{marked, Pending, new_inputs, commit_inputs}
use entourage.Sessions.Service.Rows.{Born, born_rows}
use entourage.Sessions.Service.Outcomes.{asked, commit_sessions}
use entourage.Sessions.Service.Retention.{purge_keeps, purge_removes}
use entourage.Sessions.Run.{claims, commits, purges, step, run, run-IsValid_from_empty}
use entourage.Sessions.Tests.{
  message, machine, request, script, held_store, holder_of, finished, finished_store, held_row,
}

finished_IsValid : IsValid finished_store
unfolding run
finished_IsValid =
    run-IsValid_from_empty
      (script ++ claims request 10 "t1" ∷ commits holder_of finished 20 20 ∷ [])

abbrev finished_row : Session
finished_row = checkpoint finished none 20 held_row

finished_found : session finished_store "s" ≡ some finished_row
unfolding machine
finished_found = refl

-- A step that takes its mail in, writes to itself and to the child that it spawns, and parks until a
-- deadline.
abbrev reminder : Event
reminder = record message { event_id = some "m2" }

abbrev parking : Proposal
parking = record finished {
  publish =
      record { session_id = "s"; event = reminder }
      ∷ record { session_id = "s2"; event = message }
      ∷ [];
  deadline = some (Instant.at 50);
  complete = false;
  spawn = record { session_id = "s2"; executable = "d:v1"; state = obj end } ∷ [];
}

abbrev parked_store : Store
parked_store = step held_store (commits holder_of parking 20 20)

parked : commit held_store holder_of parking 20 20 ≡ returns (tt, parked_store)
unfolding machine
parked = refl

commit_inputs_example :
    let kept = map (marked "s" ("m1" ∷ [])) held_store.inputs in
    (parked_store.inputs ≡ kept ++ new_inputs kept parking.publish)
    × All Pending (new_inputs kept parking.publish)
commit_inputs_example = commit_inputs held_store parked_store holder_of parking 20 20 parked

commit_sessions_example :
    (row : Session) × (deadline : Option ℕ) × (session held_store "s" ≡ some row)
    × (holds_lease holder_of 20 row ≡ true)
    × (parking.deadline ≡ asked deadline)
    × (parked_store.sessions
        ≡ update
            (with_id "s")
            (checkpoint parking deadline 20)
            (held_store.sessions ++ born_rows parking.spawn))
    × (session parked_store "s" ≡ some (checkpoint parking deadline 20 row))
    × All (Born parked_store) parking.spawn
    × ((j : String) (s : Session)
        → ("s" == j) ≡ false
        → session held_store j ≡ some s
        → session parked_store j ≡ some s)
commit_sessions_example = commit_sessions held_store parked_store holder_of parking 20 20 parked

purge_nothing :
    purge finished_store (Instant.at 20) none
    ≡ returns (0, step finished_store (purges (Instant.at 20) none))
unfolding machine
purge_nothing = refl

purge_keeps_example :
    session (step finished_store (purges (Instant.at 20) none)) "s" ≡ some finished_row
purge_keeps_example =
    purge_keeps finished_store (step finished_store (purges (Instant.at 20) none)) 20 none 0 "s"
      finished_row finished_IsValid purge_nothing finished_found refl

purge_one :
    purge finished_store (Instant.at 21) none
    ≡ returns (1, step finished_store (purges (Instant.at 21) none))
unfolding machine
purge_one = refl

purge_removes_example : session (step finished_store (purges (Instant.at 21) none)) "s" ≡ none
purge_removes_example =
    purge_removes finished_store (step finished_store (purges (Instant.at 21) none)) 21 1 "s"
      finished_row purge_one finished_found refl
