-- ===== src/Executables/Dispatch/Trace.antt =====
-- `run_once` and `run_until_idle` of executables.py as histories of calls of the session store.
use entourage.Prelude.{
  ℕ, zero, suc, ◌+◌, ◌%◌, String, none, some, List, [], ◌∷◌, ◌≡◌, refl, sym, ap, ◌∙◌, inl, inr,
  arith, Result, returns, raises, Result-cases, Option-cases, length, >>=-inv,
}
use entourage.Sessions.Types.{Store, Activation, Seconds, Error}
use entourage.Sessions.Claim.{Request, claim}
use entourage.Sessions.Checkpoint.{Proposal, commit, release}
use entourage.Sessions.Run.{Call, claims, commits, releases, step, run, after}
use entourage.Executables.Types.{Dispatcher, Failure, Policy}
use entourage.Executables.Registry.{policy, names, store_call}
use entourage.Executables.Dispatch.{
  Readings, nth, request_of, Service, service, context, handler_call, checked, attempt_step,
  backoff, give_back, settle, serve, moved, scan, run_once,
}

-- The claim is one of this dispatcher's: for its worker, its session, and its size of batch.
abbrev pub IsOwn : Dispatcher → Request → Type 0
IsOwn d r =
    (r.worker ≡ some d.worker) × (r.session_id ≡ d.session) × (r.max_events ≡ some d.max_events)

-- The calls of one `run_once` on a store: claims that find nothing, and then at most one claim that
-- finds an activation, which is committed, or released, or left to expire.
pub data Trace (d : Dispatcher) : Store → List Call → Type 0 where
  idle : (db : Store) → Trace d db []
  look :
      (db db' : Store) (cs : List Call) (r : Request) (now : ℕ) (token : String)
      → IsOwn d r
      → claim db r now token ≡ returns (none, db')
      → Trace d db' cs
      → Trace d db (claims r now token ∷ cs)
  committed :
      (db db' : Store) (r : Request) (now : ℕ) (token : String) (a : Activation) (p : Proposal)
      (at held : ℕ)
      → IsOwn d r
      → claim db r now token ≡ returns (some a, db')
      → Trace d db (claims r now token ∷ commits a p at held ∷ [])
  released :
      (db db' : Store) (r : Request) (now : ℕ) (token : String) (a : Activation) (error : String)
      (wait : Seconds) (at later : ℕ)
      → IsOwn d r
      → claim db r now token ≡ returns (some a, db')
      → Trace d db (claims r now token ∷ releases a (some error) (some wait) at later ∷ [])
  left_held :
      (db db' : Store) (r : Request) (now : ℕ) (token : String) (a : Activation)
      → IsOwn d r
      → claim db r now token ≡ returns (some a, db')
      → Trace d db (claims r now token ∷ [])

after_ok :
    {A : Type 0} {a : A} (db db' : Store) (t : Result Error (A × Store))
    → t ≡ returns (a, db')
    → after db t ≡ db'
after_ok db db' t e = ap (after db) e

store_call-inv :
    {A : Type 0} (r : Result Error A) {a : A} → store_call r ≡ returns a → r ≡ returns a
store_call-inv (returns x) h = ground arith
store_call-inv (raises e) h = cc

-- The store after a step that succeeded is that of its commit.
pub attempt_step-inv :
    (name : String) (s : Service) (a : Activation) (db : Store) (readings : Readings) {db' : Store}
    → attempt_step name s a db readings ≡ returns db'
    → (p : Proposal) × (commit db a p readings.committed readings.held ≡ returns (tt, db'))
unfolding attempt_step
attempt_step-inv name s a db readings h =
    let (outcome, _, h₁) =
      >>=-inv (handler_call (s.handler (context name s a readings.activation_id) a.state a.events))
        _ h in
    let (p, _, h₂) = >>=-inv (checked s.target outcome) _ h₁ in
    let (out, c, h₃) = >>=-inv (store_call (commit db a p readings.committed readings.held)) _ h₂ in
    (p, store_call-inv (commit db a p readings.committed readings.held) (c ∙ ground (arith, h₃)))

module _ (repr : Failure → String) (second : ℕ) where
  -- What `serve` does to the store after its claim: nothing, a commit or a release.
  pub data Ending (a : Activation) (db : Store) (after_it : Store) : Type 0 where
    by_commit :
        (p : Proposal) (at held : ℕ)
        → after_it ≡ after db (commit db a p at held)
        → Ending a db after_it
    by_release :
        (error : String) (wait : Seconds) (at later : ℕ)
        → after_it ≡ after db (release db a (some error) (some wait) at later)
        → Ending a db after_it
    unchanged : after_it ≡ db → Ending a db after_it

  settle-Ending :
      (d : Dispatcher) (db : Store) (a : Activation) (lease : Seconds) (readings : Readings)
      (r : Result Failure Store)
      → ((db' : Store)
          → r ≡ returns db'
          → (p : Proposal) × (commit db a p readings.committed readings.held ≡ returns (tt, db')))
      → Ending a db (settle repr second d db a lease readings r).store
  unfolding give_back
  settle-Ending d db a lease readings (returns db') inverted =
      let (p, e) = inverted db' refl in
      by_commit p readings.committed readings.held (sym (ap (after db) e))
  settle-Ending d db a lease readings (raises f) inverted =
      elim (Result-cases (backoff second lease a.attempt)) [
        | inl (wait, e) ↦
            by_release (repr f) wait readings.released readings.retried (rw (e, give_back) refl)
        | inr (g, e) ↦ unchanged (rw (e, give_back) refl)
      ]

  pub serve-Ending :
      (d : Dispatcher) (db : Store) (name : String) (p : Policy) (a : Activation)
      (readings : Readings)
      → Ending a db (serve repr second d db name p a readings).store
  unfolding serve
  serve-Ending d db name p a readings = elim (Option-cases (service d name)) [
    | inl missing ↦ unchanged (rw (missing, serve) refl)
    | inr (s, found) ↦
        rw (found, serve)
          (settle-Ending d db a p.lease_seconds readings (attempt_step name s a db readings)
            (λ db' e. attempt_step-inv name s a db readings e))
  ]

  scan_trace :
      (d : Dispatcher) (readings : Readings) (left offset : ℕ) (db : Store)
      → (cs : List Call) × Trace d db cs
        × ((scan repr second d readings left offset db).store ≡ run db cs)
  unfolding scan run step
  scan_trace d readings zero offset db = ([], idle db, refl)
  scan_trace d readings (suc left) offset db =
      let index = (d.cursor + offset) % length (names d) in
      elim (Option-cases (nth index (names d))) [
        | inl none_there ↦ ([], idle db, rw (none_there, scan) refl)
        | inr (name, there) ↦ elim (Option-cases (policy d name)) [
          | inl no_policy ↦ ([], idle db, rw (there, no_policy, scan) refl)
          | inr (p, with_policy) ↦
              let r = request_of d name p in
              let now = readings.claimed offset in
              let token = readings.token offset in
              elim (Result-cases (claim db r now token)) [
                | inr (e, raised) ↦ ([], idle db, rw (there, with_policy, raised, scan) refl)
                | inl ((none, db'), nothing) ↦
                    let (cs, t, same) = scan_trace d readings left (suc offset) db' in
                    (
                      claims r now token ∷ cs,
                      look db db' cs r now token (refl, refl, refl) nothing t,
                      rw (there, with_policy, nothing, scan) same,
                    )
                | inl ((some a, db'), claimed) ↦
                    elim (serve-Ending (moved repr second d index) db' name p a readings) [
                      | by_commit q at held e ↦ (
                        claims r now token ∷ commits a q at held ∷ [],
                        committed db db' r now token a q at held (refl, refl, refl) claimed,
                        rw (there, with_policy, claimed, scan) e,
                      )
                      | by_release error wait at later e ↦ (
                        claims r now token ∷ releases a (some error) (some wait) at later ∷ [],
                        released db db' r now token a error wait at later (refl, refl, refl)
                            claimed,
                        rw (there, with_policy, claimed, scan) e,
                      )
                      | unchanged e ↦ (
                        claims r now token ∷ [],
                        left_held db db' r now token a (refl, refl, refl) claimed,
                        rw (there, with_policy, claimed, scan) e,
                      )
                    ]
              ]
        ]
      ]

  -- Whatever its handlers return or raise, one `run_once` changes the session store only by its own
  -- calls of the store: claims for its worker that find nothing, and then at most one claim that finds
  -- an activation, followed by at most one commit or one release of that activation.
  pub run_once_refines :
      (d : Dispatcher) (db : Store) (readings : Readings)
      → (cs : List Call) × Trace d db cs × ((run_once repr second d db readings).store ≡ run db cs)
  unfolding run_once
  run_once_refines d db readings = scan_trace d readings (length (names d)) 0 db
