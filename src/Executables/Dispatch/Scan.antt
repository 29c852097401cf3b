-- ===== src/Executables/Dispatch/Scan.antt =====
-- What the loop of `run_once` returns on consistent tables (executables.py).
use entourage.Prelude.{
  ℕ, zero, suc, ◌+◌, ◌-◌, ◌%◌, ◌≤◌, ◌<◌, String, none, some, ◌≡◌, ◌≢◌, ◌⊎◌, refl, ap, ◌∙◌, inl, inr,
  arith, returns, raises, Result-cases, Option-cases, Bool-cases, length,
}
use native.Mathlib.Nat.{mod-lt}
use entourage.Sessions.Types.{
  Store, Activation, Seconds, seconds, negative, not_finite, Error, value_error,
}
use entourage.Sessions.Mailing.{positive}
use entourage.Sessions.Claim.{Request, claim, lease_length}
use entourage.Sessions.Valid.{IsValid}
use entourage.Sessions.Valid.Lease.{claim-IsValid}
use entourage.Sessions.Service.Total.{claim_total}
use entourage.Executables.Types.{
  Dispatcher, Failure, Policy, DispatchResult, key_error, overflow_error, store_error,
}
use entourage.Executables.Registry.{policy, names}
use entourage.Executables.Registry.Consistent.{IsConsistent}
use entourage.Executables.Dispatch.{
  Readings, Turn, nth, request_of, service, attempt_step, give_back, serve, moved, scan, run_once,
}
use entourage.Executables.Dispatch.Rotation.{
  last_place, nth_there, name_taken, policy_there, service_there, serve-raises,
}

lease_length-raises :
    (t : Seconds) (f e : Error) → lease_length t ≡ raises f → f ≡ e → e ≡ value_error
lease_length-raises (seconds zero) f e h same = cc
lease_length-raises (seconds (suc n)) f e h same = cc
lease_length-raises (negative n) f e h same = cc
lease_length-raises not_finite f e h same = cc

-- A claim on a well-formed database raises nothing but a ValueError, for its arguments.
claim-raises :
    (db : Store) (r : Request) (now : ℕ) (token : String) (e : Error)
    → IsValid db
    → claim db r now token ≡ raises e
    → e ≡ value_error
unfolding claim
claim-raises db r now token e v h = elim (Result-cases (lease_length r.lease_seconds)) [
  | inr (f, bad) ↦ lease_length-raises r.lease_seconds f e bad (ground (arith, h, bad))
  | inl (n, length_ok) ↦ elim (Bool-cases (positive r.max_events)) [
    | inr none_wanted ↦ ground (arith, h, length_ok, none_wanted)
    | inl some_wanted ↦ elim (Bool-cases (positive r.max_attempts)) [
      | inr no_attempt ↦ ground (arith, h, length_ok, some_wanted, no_attempt)
      | inl attempts ↦
          let (got, db', done) = claim_total db r now token n v length_ok some_wanted attempts in
          absurd (ground (arith, h, done))
    ]
  ]
]

module _ (repr : Failure → String) (second : ℕ) where
  -- What the loop may raise: an argument of the claim is refused, or a backoff overflows.
  abbrev Excused : Failure → Type 0
  Excused f = (f ≡ store_error value_error) ⊎ (f ≡ overflow_error)

  scan-Excused :
      (d : Dispatcher) (readings : Readings) (left offset : ℕ) (db : Store) (f : Failure)
      → IsConsistent d
      → IsValid db
      → left ≤ length (names d)
      → (scan repr second d readings left offset db).result ≡ raises f
      → Excused f
  unfolding scan service
  scan-Excused d readings zero offset db f c v fits h = cc
  scan-Excused d readings (suc left) offset db f c v fits h =
      let n = length (names d) in
      let index = (d.cursor + offset) % n in
      let (name, there) = nth_there index (names d) (mod-lt (d.cursor + offset) (omega arith)) in
      let known = name_taken d index name there in
      let (p, with_policy) = policy_there d name c known in
      elim (Result-cases
        (claim db (request_of d name p) (readings.claimed offset) (readings.token offset))) [
          | inr (e, raised) ↦
              let refused =
                claim-raises db (request_of d name p) (readings.claimed offset)
                  (readings.token offset) e v raised in
              inl (ground (arith, h, there, with_policy, raised, refused))
          | inl ((none, db'), nothing) ↦
              scan-Excused d readings left (suc offset) db' f c
                (claim-IsValid db (request_of d name p) (readings.claimed offset)
                  (readings.token offset) nothing v)
                (omega arith) (ground (arith, h, there, with_policy, nothing))
          | inl ((some a, db'), claimed) ↦ inr (
              serve-raises repr second (moved repr second d index) db' name p a readings f
                (service_there d name c known) (ground (arith, h, there, with_policy, claimed)))
        ]

  -- With consistent tables and a well-formed session database, `run_once` raises no KeyError, neither
  -- from its own tables nor from the session store.
  pub run_once-ne-key_error :
      (d : Dispatcher) (db : Store) (readings : Readings)
      → IsConsistent d
      → IsValid db
      → ((run_once repr second d db readings).result ≢ raises key_error)
        × ((run_once repr second d db readings).result ≢ raises (store_error Error.key_error))
  unfolding run_once
  run_once-ne-key_error d db readings c v =
      let all =
        λ (f : Failure). scan-Excused d readings (length (names d)) 0 db f c v (omega arith) in
      (
        λ h. elim (all key_error h) [ inl e ↦ cc | inr e ↦ cc ],
        λ h. elim (all (store_error Error.key_error) h) [ inl e ↦ cc | inr e ↦ cc ],
      )

  -- After `k` offsets of the loop from the store `start`, each of whose claims found nothing, the
  -- store is `db`.
  abbrev pub Reaches : Dispatcher → Readings → Store → ℕ → Store → Type 0
  Reaches d readings start zero db = start ≡ db
  Reaches d readings start (suc k) db =
      (before : Store) × (name : String) × (p : Policy) × Reaches d readings start k before
      × (nth ((d.cursor + k) % length (names d)) (names d) ≡ some name)
      × (policy d name ≡ some p)
      × (claim before (request_of d name p) (readings.claimed k) (readings.token k)
          ≡ returns (none, db))

  -- What `run_once` served on the store `db`, leaving `t`: after `skipped` offsets that found nothing,
  -- the activation that the claim for the next place of the rotation gave.
  pub record Rotated (d : Dispatcher) (db : Store) (readings : Readings) (t : Turn)
      (r : DispatchResult) : Type 0 where
    pub skipped : ℕ
    pub within : skipped < length (names d)
    pub before : Store
    pub reached : Reaches d readings db skipped before
    pub name : String
    pub there : nth ((d.cursor + skipped) % length (names d)) (names d) ≡ some name
    pub policy_of_name : Policy
    pub with_policy : policy d name ≡ some policy_of_name
    pub activation : Activation
    pub claimed_store : Store
    pub claimed :
        claim before
          (request_of d name policy_of_name)
          (readings.claimed skipped)
          (readings.token skipped)
        ≡ returns (some activation, claimed_store)
    pub reported : r.session_id ≡ activation.session_id
    pub stored :
        t.store
        ≡ (serve repr second
            (moved repr second d ((d.cursor + skipped) % length (names d)))
            claimed_store
            name
            policy_of_name
            activation
            readings).store
    pub last_place_next :
        (t.dispatcher.cursor + (length (names d) - 1)) % length (names d)
        ≡ (d.cursor + skipped) % length (names d)

  serve_reports :
      (d : Dispatcher) (db : Store) (name : String) (p : Policy) (a : Activation)
      (readings : Readings) (r : DispatchResult)
      → (serve repr second d db name p a readings).result ≡ returns (some r)
      → (r.session_id ≡ a.session_id) × ((serve repr second d db name p a readings).dispatcher ≡ d)
  unfolding serve
  serve_reports d db name p a readings r h = elim (Option-cases (service d name)) [
    | inl missing ↦ absurd (ground (arith, h, missing))
    | inr (s, found) ↦ elim (Result-cases (attempt_step name s a db readings)) [
      | inl (db', done) ↦ (ground (arith, h, found, done), rw (found, done, serve) refl)
      | inr (f, broke) ↦
          elim (Result-cases (give_back repr second db a f p.lease_seconds readings)) [
            | inl (db', back) ↦
                (ground (arith, h, found, broke, back), rw (found, broke, serve) refl)
            | inr (g, over) ↦ absurd (ground (arith, h, found, broke, over))
          ]
    ]
  ]

  scan-Rotated :
      (d : Dispatcher) (readings : Readings) (start : Store) (left offset : ℕ) (db : Store)
      (r : DispatchResult)
      → left + offset ≡ length (names d)
      → Reaches d readings start offset db
      → (scan repr second d readings left offset db).result ≡ returns (some r)
      → Rotated d start readings (scan repr second d readings left offset db) r
  unfolding scan
  scan-Rotated d readings start zero offset db r fits way h = absurd (ground (arith, h))
  scan-Rotated d readings start (suc left) offset db r fits way h =
      let n = length (names d) in
      let index = (d.cursor + offset) % n in
      let small : index < n = mod-lt (d.cursor + offset) (omega arith) in
      let (name, there) = nth_there index (names d) small in
      elim (Option-cases (policy d name)) [
        | inl no_policy ↦ absurd (ground (arith, h, there, no_policy))
        | inr (p, with_policy) ↦
            elim (Result-cases
              (claim db (request_of d name p) (readings.claimed offset) (readings.token offset))) [
                | inr (e, raised) ↦ absurd (ground (arith, h, there, with_policy, raised))
                | inl ((none, db'), nothing) ↦
                    let rest =
                      scan-Rotated d readings start left (suc offset) db' r (omega arith)
                        (db, name, p, way, there, with_policy, nothing)
                        (ground (arith, h, there, with_policy, nothing)) in
                    rw (there, with_policy, nothing, scan) rest
                | inl ((some a, db'), claimed) ↦
                    let e = moved repr second d index in
                    let (reported, same) =
                      serve_reports e db' name p a readings r
                        (ground (arith, h, there, with_policy, claimed)) in
                    rw (there, with_policy, claimed, scan)
                      (record {
                        skipped = offset;
                        within = omega arith;
                        before = db;
                        reached = way;
                        name = name;
                        there = there;
                        policy_of_name = p;
                        with_policy = with_policy;
                        activation = a;
                        claimed_store = db';
                        claimed = claimed;
                        reported = reported;
                        stored = refl;
                        last_place_next =
                            ap (λ (f : Dispatcher). (f.cursor + (n - 1)) % n) same
                            ∙ last_place index n small;
                      })
              ]
      ]

  -- When `run_once` returns a result, the claims for the first places of the rotation from the cursor
  -- found nothing, one after the other on the store given; the claim for the next place, on the store
  -- that they left, gave the activation that the result is of; the store returned is what serving that
  -- activation leaves; and the next rotation looks at that place last.
  pub run_once-Rotated :
      (d : Dispatcher) (db : Store) (readings : Readings) (r : DispatchResult)
      → (run_once repr second d db readings).result ≡ returns (some r)
      → Rotated d db readings (run_once repr second d db readings) r
  unfolding run_once
  run_once-Rotated d db readings r h =
      scan-Rotated d readings db (length (names d)) 0 db r (omega arith) refl h
