-- ===== src/Executables/Dispatch/Budget.antt =====
-- Draining within a budget, and the backoff of a failed step (executables.py).
use entourage.Prelude.{
  ℕ, zero, suc, ◌+◌, ◌*◌, ◌^◌, ◌≤◌, ◌<◌, min, String, none, some, ◌≡◌, sym, ap, ◌∙◌, subst, inl,
  inr, arith, returns, raises, Result-cases, length,
}
use native.Mathlib.Nat.{min-le_left, two-pow-succ, mul-add}
use entourage.Sessions.Types.{Store, Seconds, seconds}
use entourage.Sessions.Valid.{IsValid}
use entourage.Sessions.Run.{run-IsValid}
use entourage.Executables.Types.{Dispatcher, Failure, overflow_error}
use entourage.Executables.Dispatch.{Readings, run_once, drain, backoff}
use entourage.Executables.Dispatch.Trace.{run_once_refines}

module _ (repr : Failure → String) (second : ℕ) where
  run_once-IsValid :
      (d : Dispatcher) (db : Store) (readings : Readings)
      → IsValid db
      → IsValid (run_once repr second d db readings).store
  run_once-IsValid d db readings v =
      let (cs, _, same) = run_once_refines repr second d db readings in
      subst IsValid (sym same) (run-IsValid db cs v)

  -- Draining within a budget of `n` activations runs at most `n` of them, and leaves a well-formed
  -- session database well formed, whatever the handlers return or raise.
  pub drain_bounds :
      (n i : ℕ) (readings : ℕ → Readings) (d : Dispatcher) (db : Store)
      → IsValid db
      → (length (drain repr second n i readings d db).results ≤ n)
        × IsValid (drain repr second n i readings d db).store
  unfolding drain
  drain_bounds zero i readings d db v = (omega arith, v)
  drain_bounds (suc n) i readings d db v =
      let t = run_once repr second d db (readings i) in
      let v' = run_once-IsValid d db (readings i) v in
      elim (Result-cases t.result) [
        | inr (f, raised) ↦ rw (raised, drain) (omega arith, v')
        | inl (none, idle) ↦ rw (idle, drain) (omega arith, v')
        | inl (some r, served) ↦
            let rest = drain_bounds n (suc i) readings t.dispatcher t.store v' in
            rw (served, drain) (omega (arith, rest.0), rest.1)
      ]

second_doubles : (second k : ℕ) → second * 2 ^ suc k ≡ second * 2 ^ k + second * 2 ^ k
second_doubles second k = ap (λ n. second * n) (two-pow-succ k) ∙ mul-add second (2 ^ k) (2 ^ k)

min_doubles : (a b c : ℕ) → c ≡ b + b → (min a b ≤ min a c) × (min a c ≡ min a (min a b + min a b))
min_doubles a b c h = (omega arith, omega arith)

-- The delay of the attempt after `k` others.
backoff_value :
    (second lease k : ℕ)
    → k < 1024
    → backoff second (seconds lease) (suc k) ≡ returns (seconds (min lease (second * 2 ^ k)))
unfolding backoff
backoff_value second lease k few = ground arith

-- The backoff after the first attempt is a second or the lease, whichever is shorter. For the first
-- 1023 attempts it is defined, and with the next attempt it becomes exactly twice as long, or the
-- lease where that is shorter: it neither shrinks nor exceeds the lease.
pub backoff_doubles :
    (second lease k : ℕ)
    → k < 1023
    → (backoff second (seconds lease) 1 ≡ returns (seconds (min lease second)))
      × (n : ℕ) × (m : ℕ) × (backoff second (seconds lease) (suc k) ≡ returns (seconds n))
      × (backoff second (seconds lease) (suc (suc k)) ≡ returns (seconds m))
      × (m ≡ min lease (n + n))
      × (n ≤ m)
      × (m ≤ lease)
backoff_doubles second lease k few =
    let first : second * 2 ^ 0 ≡ second = omega arith in
    let (grows, exact) =
      min_doubles lease (second * 2 ^ k) (second * 2 ^ suc k) (second_doubles second k) in
    (
      subst (λ n. backoff second (seconds lease) 1 ≡ returns (seconds (min lease n))) first
          (backoff_value second lease 0 (omega arith)),
      min lease (second * 2 ^ k),
      min lease (second * 2 ^ suc k),
      backoff_value second lease k (omega arith),
      backoff_value second lease (suc k) (omega arith),
      exact,
      grows,
      min-le_left _ _,
    )

-- From the 1025th attempt on the computation of the backoff raises.
pub backoff_overflows :
    (second k : ℕ) (lease : Seconds)
    → 1024 ≤ k
    → backoff second lease (suc k) ≡ raises overflow_error
unfolding backoff
backoff_overflows second k lease many = ground arith
