-- ===== src/Executables/Dispatch.antt =====
-- `run_once`, `_release`, `run_until_idle` and `run_forever` of executables.py. `repr` is the text of
-- an error, cut to 2000 characters, and `second` the number of ticks in a second.
pub mod Trace
pub mod Budget
pub mod Failed
pub mod Rotation
pub mod Scan
use entourage.Prelude.{
  ℕ, zero, suc, ◌+◌, ◌-◌, ◌*◌, ◌%◌, ◌^◌, min, String, Option, none, some, List, [], ◌∷◌, ◌++◌, Bool,
  true, false, ◌&&◌, ◌||◌, not, ◌==◌, ltb, leb, Result, returns, raises, ◌>>=◌, ◌>>◌, require, Dict,
  lookup, if◌then◌else◌, length, is_some, absent_or,
}
use entourage.Mail.{Json, Event}
use entourage.Sessions.Types.{Store, Activation, Seconds, seconds, negative, Error, Tx}
use entourage.Sessions.Claim.{Request, claim}
use entourage.Sessions.Checkpoint.{Proposal, commit, release}
use entourage.Sessions.Run.{after}
use entourage.Executables.Types.{
  Context, Failure, Outcome, Handler, Served, Upgrade, Policy, Dispatcher, DispatchResult, proposal,
  other, handler_error, store_error, value_error, key_error, type_error, overflow_error,
}
use entourage.Executables.Context.{is_object}
use entourage.Executables.Registry.{policy, names, store_call, is_positive}

-- What `run_once` meets: the clock's reading and the fresh token at the claim of each offset, the
-- fresh activation id, and the readings in `commit` and `release`.
pub record Readings : Type 0 where
  pub claimed : ℕ → ℕ
  pub token : ℕ → String
  pub activation_id : String
  pub committed : ℕ
  pub held : ℕ
  pub released : ℕ
  pub retried : ℕ

-- What a call of the dispatcher comes to, with the dispatcher and the store that it leaves.
pub record Turn : Type 0 where
  pub result : Result Failure (Option DispatchResult)
  pub dispatcher : Dispatcher
  pub store : Store

abbrev pub turn : Result Failure (Option DispatchResult) → Dispatcher → Store → Turn
turn result d db = record { result = result; dispatcher = d; store = db }

abbrev pub nth {ℓ} : {A : Type ℓ} → ℕ → List A → Option A
nth n [] = none
nth zero (x ∷ xs) = some x
nth (suc n) (x ∷ xs) = nth n xs

abbrev pub request_of : Dispatcher → String → Policy → Request
request_of d name p = record {
  lease_seconds = p.lease_seconds;
  executable = some name;
  max_events = some d.max_events;
  session_id = d.session;
  worker = some d.worker;
  max_attempts = p.max_attempts;
}

-- The handler of a name, the configuration of its contract, and the definition that a migration must
-- rebind to.
pub record Service : Type 0 where
  pub handler : Handler
  pub config : Json
  pub target : Option String

unfoldable pub service : Dispatcher → String → Option Service
service d name = elim (lookup name d.definitions) [
  | some s ↦ some (record { handler = s.handler; config = s.contract.config; target = none })
  | none ↦ elim (lookup name d.upgrades) [
    | none ↦ none
    | some u ↦ elim (lookup u.target d.definitions) [
      | none ↦ none
      | some s ↦
          some (record { handler = u.migrate; config = s.contract.config; target = some u.target })
    ]
  ]
]

abbrev pub context : String → Service → Activation → String → Context
context name s a activation_id = record {
  session_id = a.session_id;
  definition = elim s.target [ none ↦ name | some t ↦ t ];
  upgrading_from = elim s.target [ none ↦ none | some t ↦ some name ];
  attempt = a.attempt;
  last_error = a.last_error;
  activation_id = activation_id;
  config = s.config;
  has_more = a.has_more;
  publish = [];
  spawn = [];
}

abbrev pub handler_call : Result String Outcome → Result Failure Outcome
handler_call (returns o) = returns o
handler_call (raises text) = raises (handler_error text)

-- `proposal.rebind not in (None, target)`.
abbrev pub other_rebind : Option String → String → Bool
other_rebind none target = false
other_rebind (some r) target = not (r == target)

abbrev pub rebound : Option String → Proposal → Result Failure Proposal
rebound none p = returns p
rebound (some target) p =
    if other_rebind p.rebind target || p.complete
    then raises value_error
    else returns (record p { rebind = some target })

-- The checks of what the handler returned.
unfoldable pub checked : Option String → Outcome → Result Failure Proposal
checked target other = raises type_error
checked target (proposal p) = do require (is_object p.state) value_error; rebound target p

-- The body of the `try`: the handler's step and its checkpoint.
unfoldable pub attempt_step :
    String → Service → Activation → Store → Readings → Result Failure Store
attempt_step name s a db readings = do
  outcome ← handler_call (s.handler (context name s a readings.activation_id) a.state a.events)
  p ← checked s.target outcome
  (_, db') ← store_call (commit db a p readings.committed readings.held)
  returns db'

-- `min(lease_seconds, float(2 ** (attempt - 1)))`; a float holds no power of two from 2 ** 1024 on.
unfoldable pub backoff : ℕ → Seconds → ℕ → Result Failure Seconds
backoff second lease attempt =
    if leb 1024 (attempt - 1) then raises overflow_error else elim lease [
      | seconds n ↦ returns (seconds (min n (second * 2 ^ (attempt - 1))))
      | negative n ↦ returns (negative n)
      | Seconds.not_finite ↦ returns (seconds (second * 2 ^ (attempt - 1)))
    ]

module _ (repr : Failure → String) (second : ℕ) where
  -- `_release`: a release that fails is logged only.
  unfoldable pub give_back :
      Store → Activation → Failure → Seconds → Readings → Result Failure Store
  give_back db a f lease readings = do
    wait ← backoff second lease a.attempt
    returns (after db (release db a (some (repr f)) (some wait) readings.released readings.retried))

  abbrev pub outcome_of :
      String → Failure → Result Failure Store → Result Failure (Option DispatchResult)
  outcome_of session_id f (raises g) = raises g
  outcome_of session_id f (returns db) =
      returns (some (record { session_id = session_id; committed = false; error = some f }))

  abbrev pub store_or : Store → Result Failure Store → Store
  store_or db (raises g) = db
  store_or db (returns db') = db'

  abbrev pub settle :
      Dispatcher → Store → Activation → Seconds → Readings → Result Failure Store → Turn
  settle d db a lease readings (returns db') =
      turn (returns (some (record { session_id = a.session_id; committed = true; error = none }))) d
        db'
  settle d db a lease readings (raises f) =
      let back = give_back db a f lease readings in
      turn (outcome_of a.session_id f back) d (store_or db back)

  -- From the claimed activation to the result.
  unfoldable pub serve : Dispatcher → Store → String → Policy → Activation → Readings → Turn
  serve d db name p a readings = elim (service d name) [
    | none ↦ turn (raises key_error) d db
    | some s ↦ settle d db a p.lease_seconds readings (attempt_step name s a db readings)
  ]

  abbrev pub moved : Dispatcher → ℕ → Dispatcher
  moved d index = record d { cursor = suc index % length (names d) }

  abbrev pub after_claim :
      Dispatcher
      → Store
      → ℕ
      → String
      → Policy
      → Readings
      → Tx (Option Activation)
      → (Store → Turn)
      → Turn
  after_claim d db index name p readings (raises e) next = turn (raises (store_error e)) d db
  after_claim d db index name p readings (returns (none, db')) next = next db'
  after_claim d db index name p readings (returns (some a, db')) next =
      serve (moved d index) db' name p a readings

  -- The `for` loop of `run_once`, with the number of offsets left and the next offset.
  unfoldable pub scan : Dispatcher → Readings → ℕ → ℕ → Store → Turn
  scan d readings zero offset db = turn (returns none) d db
  scan d readings (suc left) offset db =
      let index = (d.cursor + offset) % length (names d) in
      elim (nth index (names d)) [
        | none ↦ turn (raises key_error) d db
        | some name ↦ elim (policy d name) [
          | none ↦ turn (raises key_error) d db
          | some p ↦
              after_claim d db index name p readings
                (claim db (request_of d name p) (readings.claimed offset) (readings.token offset))
                (λ db'. scan d readings left (suc offset) db')
        ]
      ]

  unfoldable pub run_once : Dispatcher → Store → Readings → Turn
  run_once d db readings = scan d readings (length (names d)) 0 db

  -- What a loop of turns comes to.
  pub record Drained : Type 0 where
    pub results : List DispatchResult
    pub raised : Option Failure
    pub dispatcher : Dispatcher
    pub store : Store

  -- The loop of `run_until_idle`; the readings are those of each turn.
  unfoldable pub drain : ℕ → ℕ → (ℕ → Readings) → Dispatcher → Store → Drained
  drain zero i readings d db = record { results = []; raised = none; dispatcher = d; store = db }
  drain (suc n) i readings d db =
      let t = run_once d db (readings i) in
      elim t.result [
        | raises f ↦ record {
          results = [];
          raised = some f;
          dispatcher = t.dispatcher;
          store = t.store;
        }
        | returns none ↦ record {
          results = [];
          raised = none;
          dispatcher = t.dispatcher;
          store = t.store;
        }
        | returns (some r) ↦
            let rest = drain n (suc i) readings t.dispatcher t.store in
            record {
              results = r ∷ rest.results;
              raised = rest.raised;
              dispatcher = rest.dispatcher;
              store = rest.store;
            }
      ]

  unfoldable pub run_until_idle : ℕ → (ℕ → Readings) → Dispatcher → Store → Result Failure Drained
  run_until_idle max_activations readings d db = do
    require (ltb 0 max_activations) value_error
    returns (drain max_activations 0 readings d db)
