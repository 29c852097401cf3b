-- ===== src/Executables/Dispatch/Failed.antt =====
-- A step that fails (`Dispatcher._release` of executables.py).
use entourage.Prelude.{
  ℕ, String, Option, some, false, ◌≡◌, refl, inl, inr, arith, returns, Result-cases, Option-cases,
}
use entourage.Sessions.Types.{Store, Activation, Seconds}
use entourage.Sessions.Table.{set_session}
use entourage.Sessions.Checkpoint.{release, backoff as store_backoff, holder}
use entourage.Sessions.Run.{after}
use entourage.Executables.Types.{Dispatcher, Failure, Policy, DispatchResult}
use entourage.Executables.Dispatch.{Readings, service, attempt_step, backoff, give_back, serve}

release-inputs :
    (db : Store) (a : Activation) (error : Option String) (wait : Option Seconds) (now later : ℕ)
    → ((after db (release db a error wait now later)).inputs ≡ db.inputs)
      × ((after db (release db a error wait now later)).definitions ≡ db.definitions)
unfolding release set_session
release-inputs db a error wait now later = elim (Result-cases (store_backoff wait later)) [
  | inr (e, refused) ↦ rw (refused, release) (refl, refl)
  | inl (until, delay) ↦ elim (Result-cases (holder db now a)) [
    | inr (e, stale) ↦ rw (delay, stale, release) (refl, refl)
    | inl (row, held) ↦ rw (delay, held, release) (refl, refl)
  ]
]

module _ (repr : Failure → String) (second : ℕ) where
  -- When a step is reported as not committed, whatever its handler did, no mail has been incorporated,
  -- published or lost by it, and the report names the claimed session.
  pub failed_step_keeps_mail :
      (d : Dispatcher) (db : Store) (name : String) (p : Policy) (a : Activation)
      (readings : Readings) (r : DispatchResult)
      → (serve repr second d db name p a readings).result ≡ returns (some r)
      → r.committed ≡ false
      → ((serve repr second d db name p a readings).store.inputs ≡ db.inputs)
        × (r.session_id ≡ a.session_id)
  unfolding serve give_back
  failed_step_keeps_mail d db name p a readings r h failed = elim (Option-cases (service d name)) [
    | inl missing ↦ absurd (ground (arith, h, missing))
    | inr (s, found) ↦ elim (Result-cases (attempt_step name s a db readings)) [
      | inl (db', done) ↦ absurd (ground (arith, h, found, done, failed))
      | inr (f, broke) ↦ elim (Result-cases (backoff second p.lease_seconds a.attempt)) [
        | inr (g, over) ↦ absurd (ground (arith, h, found, broke, over))
        | inl (wait, delay) ↦
            let kept =
              release-inputs db a (some (repr f)) (some wait) readings.released readings.retried in
            (
              rw (found, broke, delay, serve, give_back) kept.0,
              ground (arith, h, found, broke, delay),
            )
      ]
    ]
  ]
