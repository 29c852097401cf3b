-- ===== src/Plans/Tests.antt =====
-- A triage step, and behind its gate two steps in parallel.
use entourage.Prelude.{
  ℕ, String, Option, none, some, [], ◌∷◌, ◌≡◌, refl, true, Dict, All, lookup, assign, decimal,
  Result, returns, raises,
}
use entourage.Mail.Fields.{end}
use entourage.Plans.{
  Error, Plan, Policy, StagedPlan, Execution, Edge, named, callable, leaf, node, conditional,
  sequence, parallel, nil, cons, new_node, resolve_node, add_execution, stage, stage_plan,
  value_error, index_error, recursion_limit_exceeded,
}
use entourage.Plans.Staged.{Joins, Are, is_staged}
use entourage.Plans.Closed.{stage_plan-IsClosed}
use entourage.Plans.Spawn.{Spawn, stage_spawn, stage_spawn_reproduces}

-- Opening this opens the expansion.
machine :
    Option String
    → (ℕ → String)
    → (ℕ → String)
    → Plan
    → Dict ℕ
    → Dict ℕ
    → Result Error (StagedPlan × Dict ℕ)
unfolding decimal lookup assign resolve_node add_execution stage stage_plan
machine = stage_plan

abbrev digits : ℕ → String
digits n = "00000000"

abbrev triage : Plan
triage = sequence (
    cons (leaf (named "triage")) (
      cons
        (conditional "urgent"
          (parallel (cons (leaf (named "page")) (cons (leaf (callable "log" 7)) nil))))
        nil))

abbrev execution : String → String → Execution
execution id name = record { exec_id = id; node_name = name; policy = none }

abbrev edge : String → String → Option String → Edge
edge from to condition = record { from = from; to = to; condition = condition }

abbrev staged : StagedPlan
staged = record {
  executions =
      execution "p-x0" "triage"
      ∷ execution "p-x1" "__GATE__urgent"
      ∷ execution "p-x2" "__MERGE__"
      ∷ execution "p-x3" "page"
      ∷ execution "p-x4" "log"
      ∷ [];
  edges =
      edge "p-x3" "p-x2" none
      ∷ edge "p-x4" "p-x2" none
      ∷ edge "p-x1" "p-x3" (some "urgent")
      ∷ edge "p-x1" "p-x4" (some "urgent")
      ∷ edge "p-x0" "p-x1" none
      ∷ [];
  starts = "p-x0" ∷ [];
  end = "p-x2";
}

stages :
    stage_plan (some "p") digits digits triage [] []
    ≡ returns (staged, record { key = "log"; value = 7 } ∷ [])
unfolding machine
stages = refl

nothing_to_do : stage_plan none digits digits (sequence nil) [] [] ≡ raises index_error
unfolding machine
nothing_to_do = refl

abbrev once : Policy
once = record { max_attempts = none; timeout = none; retry_delay = none; max_invocations = some 1 }

twice_refused :
    stage_plan none digits digits
      (sequence (cons (node (named "a") once) (cons (node (named "a") once) nil)))
      []
      []
    ≡ raises recursion_limit_exceeded
unfolding machine
twice_refused = refl

never_allowed : new_node (named "a") (record once { max_invocations = some 0 }) ≡ raises value_error
unfolding new_node
never_allowed = refl

stage_plan-IsClosed_example :
    All (Joins staged.executions) staged.edges
    × Are staged.executions staged.starts
    × (is_staged staged.executions staged.end ≡ true)
stage_plan-IsClosed_example =
    stage_plan-IsClosed (some "p") digits digits triage [] (record { key = "log"; value = 7 } ∷ [])
      [] staged stages

abbrev child : Spawn
child = record {
  plan = triage;
  initial_state = end;
  slot = none;
  correlation_id = none;
  notify = none;
}

stage_spawn_reproduces_example :
    stage_spawn digits digits child "e1" 0 [] none
    ≡ stage_spawn (λ n. "ffffffff") digits child "e1" 0 [] none
stage_spawn_reproduces_example =
    stage_spawn_reproduces digits (λ n. "ffffffff") digits child "e1" 0 [] none
