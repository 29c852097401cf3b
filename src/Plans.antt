-- ===== src/Plans.antt =====
-- Plans and their expansion into executions and edges (entourage/flow.py and
-- entourage/runtime/planner.py).
pub mod Staged
pub mod Closed
pub mod Spawn
mod Tests
use entourage.Prelude.{
  ℕ, zero, suc, ◌+◌, String, ◌+++◌, Option, none, some, List, [], ◌∷◌, ◌++◌, Bool, true, false,
  ◌&&◌, ◌||◌, not, ◌==◌, ltb, leb, eqb, if◌then◌else◌, is_some, or_else, absent_or, length, map,
  slice, decimal, Dict, Entry, lookup, assign, Result, returns, raises, ◌>>=◌, ◌>>◌, require,
}
use entourage.Mail.{Json}

pub data Error : Type 0 where
  value_error index_error recursion_limit_exceeded : Error

-- Seconds that may be negative.
pub data Timeout : Type 0 where
  seconds : ℕ → Timeout
  negative : ℕ → Timeout

-- A name, or a callable: its own name and its identity.
pub data Leaf : Type 0 where
  named : String → Leaf
  callable : String → ℕ → Leaf

pub record Policy : Type 0 where
  pub max_attempts : Option ℕ
  pub timeout : Option Timeout
  pub retry_delay : Option Timeout
  pub max_invocations : Option ℕ

pub record Wait : Type 0 where
  pub conversation : Option String
  pub timeout : Option Timeout
  pub limit : ℕ

mutual
  pub data Plan : Type 0 where
    leaf : Leaf → Plan
    node : Leaf → Policy → Plan
    wait_for_mailbox : Wait → Plan
    conditional : String → Plan → Plan
    sequence : Plans → Plan
    parallel : Plans → Plan
    unknown : Plan

  pub data Plans : Type 0 where
    nil : Plans
    cons : Plan → Plans → Plans

-- `Node.__init__`.
unfoldable pub new_node : Leaf → Policy → Result Error Plan
new_node item p = do
  require (absent_or (ltb 0) p.max_attempts) value_error
  require (absent_or (ltb 0) p.max_invocations) value_error
  returns (node item p)

abbrev pub is_nonnegative : Timeout → Bool
is_nonnegative (seconds n) = true
is_nonnegative (negative n) = eqb n 0

-- `WaitForMailbox.__init__`.
unfoldable pub new_wait : Wait → Result Error Plan
new_wait w = do
  require (absent_or is_nonnegative w.timeout) value_error
  require (ltb 0 w.limit) value_error
  returns (wait_for_mailbox w)

-- The policy of an execution.
pub data Stored : Type 0 where
  of_node : Policy → Stored
  of_wait : Wait → Stored

pub record Execution : Type 0 where
  pub exec_id : String
  pub node_name : String
  pub policy : Option Stored

pub record Edge : Type 0 where
  pub from : String
  pub to : String
  pub condition : Option String

-- What `stage_plan` has staged, its counts, and the registry of callables.
pub record Staging : Type 0 where
  pub executions : List Execution
  pub edges : List Edge
  pub counts : Dict ℕ
  pub registry : Dict ℕ

pub record StagedPlan : Type 0 where
  pub executions : List Execution
  pub edges : List Edge
  pub starts : List String
  pub end : String

-- `plan.policy or None`: an empty policy is none.
abbrev pub stored_policy : Policy → Option Stored
stored_policy p =
    if is_some p.max_attempts
      || is_some p.timeout
      || is_some p.retry_delay
      || is_some p.max_invocations
    then some (of_node p)
    else none

abbrev pub count_of : String → Staging → ℕ
count_of name s = or_else 0 (lookup name s.counts)

-- Whether a node's policy forbids another execution of it.
abbrev pub over_limit : Option ℕ → ℕ → Bool
over_limit none count = false
over_limit (some zero) count = false
over_limit (some (suc n)) count = leb (suc n) count

abbrev pub add_edge : String → Option String → Staging → String → Staging
add_edge from condition s to = record s {
  edges = s.edges ++ record { from = from; to = to; condition = condition } ∷ [];
}

abbrev pub add_edges : String → Option String → Staging → List String → Staging
add_edges from condition s [] = s
add_edges from condition s (t ∷ ts) = add_edges from condition (add_edge from condition s t) ts

-- The edges from the end of the segment before.
abbrev pub link : Option (List String × String) → List String → Staging → Staging
link none starts s = s
link (some (first, last)) starts s = add_edges last none s starts

abbrev pub extended : Option (List String × String) → List String → String → List String × String
extended none starts end = (starts, end)
extended (some (first, last)) starts end = (first, end)

-- `prefix` is `id_prefix`, `fresh` the digits of the uuid drawn for the n-th execution, and `hex` the
-- hexadecimal text of an object's identity.
module _ (prefix : Option String) (fresh : ℕ → String) (hex : ℕ → String) where
  -- `resolve_node`.
  unfoldable pub resolve_node : Leaf → Dict ℕ → String × Dict ℕ
  resolve_node (named name) registry = (name, registry)
  resolve_node (callable name object) registry = elim (lookup name registry) [
    | none ↦ (name, assign name object registry)
    | some current ↦
        if eqb current object
        then (name, registry)
        else (name +++ ("_" +++ hex object), assign (name +++ ("_" +++ hex object)) object registry)
  ]

  abbrev pub new_id : Staging → Option String → String
  new_id s given = elim prefix [
    | some p ↦ p +++ ("-x" +++ decimal (length s.executions))
    | none ↦ or_else (fresh (length s.executions)) given
  ]

  -- `_add_execution`.
  unfoldable pub add_execution : Staging → String → Option String → Option Stored → Staging × String
  add_execution s name given policy = (
    record s {
      executions =
          s.executions
          ++ record { exec_id = new_id s given; node_name = name; policy = policy } ∷ [];
      counts = assign name (suc (count_of name s)) s.counts;
    },
    new_id s given,
  )

  -- An id such as `gate-` and eight digits.
  abbrev pub labelled : String → Staging → Option String
  labelled label s = some (label +++ slice (fresh (length s.executions)) 0 8)

  abbrev pub alone : Staging × String → Staging × List String × String
  alone (s, id) = (s, id ∷ [], id)

  abbrev pub stage_leaf :
      Staging → Leaf → Option ℕ → Option Stored → Result Error (Staging × List String × String)
  stage_leaf s item max_invocations policy =
      let (name, registry) = resolve_node item s.registry in
      let s' = record s { registry = registry } in
      if over_limit max_invocations (count_of name s')
      then raises recursion_limit_exceeded
      else returns (alone (add_execution s' name none policy))

  abbrev pub segments :
      Staging × Option (List String × String) → Result Error (Staging × List String × String)
  segments (s, none) = raises index_error
  segments (s, some (starts, end)) = returns (s, starts, end)

  -- `_stage`, with its loops over the items of a sequence and of a parallel.
  unfoldable mutual
    pub stage : Plan → Staging → Result Error (Staging × List String × String)
    stage (leaf item) s = stage_leaf s item none none
    stage (node item policy) s = stage_leaf s item policy.max_invocations (stored_policy policy)
    stage (wait_for_mailbox w) s =
        returns (alone (add_execution s "__WAIT__" (labelled "wait-" s) (some (of_wait w))))
    stage (conditional condition plan) s =
        let (s₁, gate) = add_execution s ("__GATE__" +++ condition) (labelled "gate-" s) none in
        stage plan s₁ >>= λ (r : Staging × List String × String).
        returns (add_edges gate (some condition) r.0 r.1, gate ∷ [], r.2)
    stage (sequence items) s = stage_sequence items none s >>= segments
    stage (parallel items) s =
        let (s₁, merge) = add_execution s "__MERGE__" (labelled "merge-" s) none in
        stage_parallel items merge [] s₁ >>= λ (r : Staging × List String).
        returns (r.0, r.1, merge)
    stage unknown s = raises value_error

    pub stage_sequence :
        Plans
        → Option (List String × String)
        → Staging
        → Result Error (Staging × Option (List String × String))
    stage_sequence nil done s = returns (s, done)
    stage_sequence (cons plan plans) done s =
        stage plan s >>= λ (r : Staging × List String × String).
        stage_sequence plans (some (extended done r.1 r.2)) (link done r.1 r.0)

    pub stage_parallel :
        Plans → String → List String → Staging → Result Error (Staging × List String)
    stage_parallel nil merge starts s = returns (s, starts)
    stage_parallel (cons plan plans) merge starts s =
        stage plan s >>= λ (r : Staging × List String × String).
        stage_parallel plans merge (starts ++ r.1) (add_edge r.2 none r.0 merge)

  -- `stage_plan`; also the registry it leaves.
  unfoldable pub stage_plan : Plan → Dict ℕ → Dict ℕ → Result Error (StagedPlan × Dict ℕ)
  stage_plan plan registry existing_counts = do
    (s, starts, end) ←
        stage plan
          (record { executions = []; edges = []; counts = existing_counts; registry = registry })
    returns (
      record { executions = s.executions; edges = s.edges; starts = starts; end = end },
      s.registry,
    )
