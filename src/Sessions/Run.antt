-- ===== src/Sessions/Run.antt =====
-- Histories of a session database: any sequence of transactions, by any callers. A call that raises
-- leaves the database as it was.
pub mod NotHeld
pub mod Fencing
use entourage.Prelude.{
  ℕ, String, Option, none, some, List, [], ◌∷◌, ◌++◌, false, ◌≡◌, refl, subst, arith, Result,
  returns, raises, inl, inr, Option-cases,
}
use entourage.Mail.{Json, Event}
use entourage.Sessions.Types.{Store, Definition, Activation, Instant, Seconds, Error, empty, Tx}
use entourage.Sessions.Table.{session, definition}
use entourage.Sessions.Ready.{has_mail}
use entourage.Sessions.Mailing.{bind_definition, create, append}
use entourage.Sessions.Claim.{Request, claim}
use entourage.Sessions.Checkpoint.{Proposal, release, retry, commit}
use entourage.Sessions.Purge.{purge}
use entourage.Sessions.Valid.{IsValid, empty-IsValid}
use entourage.Sessions.Valid.Mail.{create-IsValid, append_event-IsValid}
use entourage.Sessions.Valid.Lease.{claim-IsValid}
use entourage.Sessions.Valid.Holder.{release-IsValid, retry-IsValid}
use entourage.Sessions.Valid.Commit.{commit-IsValid}
use entourage.Sessions.Valid.Purged.{purge-IsValid}

-- A call, with the readings of the clock and the fresh token that it meets.
pub data Call : Type 0 where
  binds : String → String → Call
  creates : String → String → Json → Call
  appends : String → Event → Call
  claims : Request → ℕ → String → Call
  releases : Activation → Option String → Option Seconds → ℕ → ℕ → Call
  retries : String → Call
  commits : Activation → Proposal → ℕ → ℕ → Call
  purges : Instant → Option ℕ → Call

abbrev pub after : {A : Type 0} → Store → Tx A → Store
after db (returns (a, db')) = db'
after db (raises e) = db

unfoldable pub step : Store → Call → Store
step db (binds executable encoded) = after db (bind_definition db executable encoded)
step db (creates id executable state) = after db (create db id executable state)
step db (appends id event) = after db (append db id event)
step db (claims r now token) = after db (claim db r now token)
step db (releases a error retry_after now later) =
    after db (release db a error retry_after now later)
step db (retries id) = after db (retry db id)
step db (commits a p now held_at) = after db (commit db a p now held_at)
step db (purges before limit) = after db (purge db before limit)

unfoldable pub run : Store → List Call → Store
run db [] = db
run db (c ∷ cs) = run (step db c) cs

-- A property that a successful transaction keeps holds after the call, raised or not.
pub after-keeps {κ} :
    (P : Store → Type κ) {A : Type 0} (db : Store) (t : Tx A)
    → ((a : A) (db' : Store) → t ≡ returns (a, db') → P db')
    → P db
    → P (after db t)
after-keeps P db (returns (a, db')) keep h = keep a db' refl
after-keeps P db (raises e) keep h = h

definitions-IsValid :
    (db : Store) (ds : List Definition) → IsValid db → IsValid (record db { definitions = ds })
definitions-IsValid db ds v = record {
  keys = v.keys;
  rows = unfold session in v.rows;
  inputs = v.inputs;
  owned = unfold session in v.owned;
  settled = unfold session has_mail in v.settled;
}

bind_definition-inv :
    (db : Store) (executable encoded : String) {u : Unit {0}} {db' : Store}
    → bind_definition db executable encoded ≡ returns (u, db')
    → (ds : List Definition) × (record db { definitions = ds } ≡ db')
unfolding bind_definition
bind_definition-inv db executable encoded h = elim (Option-cases (definition db executable)) [
  | inl new ↦
      (db.definitions ++ record { executable = executable; contract = encoded } ∷ [], ground arith)
  | inr (row, found) ↦ (db.definitions, ground arith)
]

step-IsValid : (db : Store) (c : Call) → IsValid db → IsValid (step db c)
unfolding step append
step-IsValid db (binds executable encoded) v =
    after-keeps IsValid db _
      (λ u db' h.
        let (ds, e) = bind_definition-inv db executable encoded h in
        subst IsValid e (definitions-IsValid db ds v))
      v
step-IsValid db (creates id executable state) v =
    after-keeps IsValid db _ (λ a db' h. create-IsValid db id executable state h v) v
step-IsValid db (appends id event) v =
    after-keeps IsValid db _ (λ a db' h. append_event-IsValid db id event false h v) v
step-IsValid db (claims r now token) v =
    after-keeps IsValid db _ (λ a db' h. claim-IsValid db r now token h v) v
step-IsValid db (releases a error retry_after now later) v =
    after-keeps IsValid db _ (λ u db' h. release-IsValid db a error retry_after now later h v) v
step-IsValid db (retries id) v = after-keeps IsValid db _ (λ b db' h. retry-IsValid db id h v) v
step-IsValid db (commits a p now held_at) v =
    after-keeps IsValid db _ (λ u db' h. commit-IsValid db a p now held_at h v) v
step-IsValid db (purges before limit) v =
    after-keeps IsValid db _ (λ n db' h. purge-IsValid db before limit h v) v

pub run-IsValid : (db : Store) (cs : List Call) → IsValid db → IsValid (run db cs)
unfolding run
run-IsValid db [] v = v
run-IsValid db (c ∷ cs) v = run-IsValid (step db c) cs (step-IsValid db c v)

-- After any history of calls on an empty database, whatever their order and arguments, the database
-- is well formed: keys are distinct, every input has its session, each row's token, lease, revision
-- and completion time fit its status, and a complete session has no mail pending.
pub run-IsValid_from_empty : (cs : List Call) → IsValid (run empty cs)
run-IsValid_from_empty cs = run-IsValid empty cs empty-IsValid
