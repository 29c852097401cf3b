-- ===== src/Executables/Watch.antt =====
-- `run_forever` of executables.py: resident polling. The list of readings holds those of the turns
-- that begin before `stop` is set.
use entourage.Prelude.{
  ℕ, ◌+◌, String, Option, none, some, List, [], ◌∷◌, Bool, true, false, leb, Result, returns,
  raises, ◌>>◌, require, absent_or, or_else, if◌then◌else◌,
}
use entourage.Sessions.Types.{Store, Seconds, seconds}
use entourage.Executables.Types.{Failure, Dispatcher, DispatchResult, value_error}
use entourage.Executables.Registry.{is_positive}
use entourage.Executables.Dispatch.{Readings, run_once}

-- What polling comes to: the results it reported, how it ended, and how long it had been idle.
pub record Watched : Type 0 where
  pub reported : List DispatchResult
  pub exited : Bool
  pub raised : Option Failure
  pub idle : ℕ
  pub dispatcher : Dispatcher
  pub store : Store

abbrev pub ends : Bool → Option Failure → ℕ → Dispatcher → Store → Watched
ends exited raised idle d db = record {
  reported = [];
  exited = exited;
  raised = raised;
  idle = idle;
  dispatcher = d;
  store = db;
}

-- `idle_exit is not None and idle >= idle_exit`.
abbrev pub exit_due : Option ℕ → ℕ → Bool
exit_due none idle = false
exit_due (some limit) idle = leb limit idle

-- Finite and not negative.
abbrev pub is_span : Seconds → Bool
is_span (seconds n) = true
is_span _ = false

abbrev pub span_of : Option Seconds → Option ℕ
span_of (some (seconds n)) = some n
span_of _ = none

module _ (repr : Failure → String) (second : ℕ) where
  unfoldable pub watch : List Readings → ℕ → Option ℕ → ℕ → Dispatcher → Store → Watched
  watch [] poll exit idle d db = ends false none idle d db
  watch (x ∷ xs) poll exit idle d db =
      let t = run_once repr second d db x in
      elim t.result [
        | raises f ↦ ends false (some f) idle t.dispatcher t.store
        | returns none ↦ elim (exit_due exit idle) [
          | true ↦ ends true none idle t.dispatcher t.store
          | false ↦ watch xs poll exit (idle + poll) t.dispatcher t.store
        ]
        | returns (some r) ↦
            let rest = watch xs poll exit (if r.committed then 0 else poll) t.dispatcher t.store in
            record rest { reported = r ∷ rest.reported }
      ]

  unfoldable pub run_forever :
      List Readings → Seconds → Option Seconds → Dispatcher → Store → Result Failure Watched
  run_forever turns poll_interval idle_exit d db = do
    require (is_positive poll_interval) value_error
    require (absent_or is_span idle_exit) value_error
    returns (watch turns (or_else 0 (span_of (some poll_interval))) (span_of idle_exit) 0 d db)
