-- ===== src/Plans/Staged.antt =====
-- Predicates on what is staged, and lemmas on the parts of `_stage` (entourage/runtime/planner.py).
use entourage.Prelude.{
  ℕ, String, Option, none, some, List, [], ◌∷◌, ◌++◌, Bool, true, ◌==◌, ◌≡◌, refl, subst, inl, inr,
  arith, Bool-cases, All, All-append, All-map, any, any-append, eq_refl, Result, returns,
}
use entourage.Plans.{
  Error, Leaf, Stored, Execution, Edge, Staging, add_edge, add_edges, link, extended, over_limit,
  count_of, resolve_node, new_id, add_execution, alone, stage_leaf, segments,
}

-- An execution with this id is staged.
abbrev pub is_staged : List Execution → String → Bool
is_staged executions id = any (λ (x : Execution). x.exec_id == id) executions

abbrev pub Joins : List Execution → Edge → Type 0
Joins executions e = (is_staged executions e.from ≡ true) × (is_staged executions e.to ≡ true)

abbrev pub IsClosed : Staging → Type 0
IsClosed s = All (Joins s.executions) s.edges

abbrev pub Are : List Execution → List String → Type 0
Are executions ids = All (λ id. is_staged executions id ≡ true) ids

-- More is staged than before.
abbrev pub Grows : Staging → Staging → Type 0
Grows s s' = (id : String) → is_staged s.executions id ≡ true → is_staged s'.executions id ≡ true

-- What staging a plan promises of the staging it leaves and of the plan's entries and exit.
pub record Staged (s s' : Staging) (starts : List String) (end : String) : Type 0 where
  pub grows : Grows s s'
  pub closed : IsClosed s'
  pub starts_are : Are s'.executions starts
  pub end_is : is_staged s'.executions end ≡ true

pub IsClosed-add_edges :
    (from : String) (condition : Option String) (s : Staging) (ts : List String)
    → is_staged s.executions from ≡ true
    → Are s.executions ts
    → IsClosed s
    → IsClosed (add_edges from condition s ts)
IsClosed-add_edges from condition s [] here are closed = closed
IsClosed-add_edges from condition s (t ∷ ts) here are closed =
    IsClosed-add_edges from condition (add_edge from condition s t) ts here are.1
      (All-append (Joins s.executions) s.edges _ closed ((here, are.0), tt))

pub executions-add_edges :
    (from : String) (condition : Option String) (s : Staging) (ts : List String)
    → (add_edges from condition s ts).executions ≡ s.executions
executions-add_edges from condition s [] = refl
executions-add_edges from condition s (t ∷ ts) =
    executions-add_edges from condition (add_edge from condition s t) ts

-- `Staged` of what `_stage` returns.
abbrev pub Good : Staging → Staging × List String × String → Type 0
Good s r = Staged s r.0 r.1 r.2

pub returned {ℓ} : {A : Type ℓ} (a b : A) → ◌≡◌ {A = Result Error A} (returns a) (returns b) → a ≡ b
returned a b h = ground (arith, h)

pub executions-link :
    (done : Option (List String × String)) (starts : List String) (s : Staging)
    → (link done starts s).executions ≡ s.executions
executions-link none starts s = refl
executions-link (some (first, last)) starts s = executions-add_edges last none s starts

-- The first entries and the last exit of the segments staged so far.
abbrev pub Done : Staging → Option (List String × String) → Type 0
Done s none = Unit
Done s (some (starts, end)) = Are s.executions starts × (is_staged s.executions end ≡ true)

pub record Sequenced (s s' : Staging) (done : Option (List String × String)) : Type 0 where
  pub grows : Grows s s'
  pub closed : IsClosed s'
  pub done_is : Done s' done

pub record Forked (s s' : Staging) (starts : List String) : Type 0 where
  pub grows : Grows s s'
  pub closed : IsClosed s'
  pub starts_are : Are s'.executions starts

pub IsClosed-link :
    (done : Option (List String × String)) (starts : List String) (s : Staging)
    → Done s done
    → Are s.executions starts
    → IsClosed s
    → IsClosed (link done starts s)
IsClosed-link none starts s d are closed = closed
IsClosed-link (some (first, last)) starts s d are closed =
    IsClosed-add_edges last none s starts d.1 are closed

pub Done-Grows :
    (s s' : Staging) (done : Option (List String × String))
    → Grows s s'
    → Done s done
    → Done s' done
Done-Grows s s' none grows d = tt
Done-Grows s s' (some (starts, end)) grows d =
    (All-map (λ id. is_staged s.executions id ≡ true) starts grows d.0, grows end d.1)

pub Done-extended :
    (s s₁ : Staging) (done : Option (List String × String)) (starts : List String) (end : String)
    → Done s done
    → Staged s s₁ starts end
    → Are s₁.executions (extended done starts end).0
      × (is_staged s₁.executions (extended done starts end).1 ≡ true)
Done-extended s s₁ none starts end d one = (one.starts_are, one.end_is)
Done-extended s s₁ (some (first, last)) starts end d one =
    (All-map (λ id. is_staged s.executions id ≡ true) first one.grows d.0, one.end_is)

module _ (prefix : Option String) (fresh : ℕ → String) (hex : ℕ → String) where
  -- One more execution: it is staged, and all else stays.
  pub added :
      (s : Staging) (name : String) (given : Option String) (policy : Option Stored)
      → IsClosed s
      → let (s', id) = add_execution prefix fresh hex s name given policy in
        Staged s s' (id ∷ []) id
  unfolding add_execution
  added s name given policy closed =
      let new : Execution = record {
        exec_id = new_id prefix fresh hex s given;
        node_name = name;
        policy = policy;
      } in
      let grows : (id : String)
          → is_staged s.executions id ≡ true
          → is_staged (s.executions ++ new ∷ []) id ≡ true =
        λ id here.
          ground (
            arith,
            here,
            any-append (λ (x : Execution). x.exec_id == id) s.executions (new ∷ []),
          ) in
      let here : is_staged (s.executions ++ new ∷ []) new.exec_id ≡ true = ground (
        arith,
        any-append (λ (x : Execution). x.exec_id == new.exec_id) s.executions (new ∷ []),
        eq_refl new.exec_id,
      ) in
      record {
        grows = grows;
        closed =
            All-map (Joins s.executions) s.edges
              (λ e joins. (grows e.from joins.0, grows e.to joins.1)) closed;
        starts_are = (here, tt);
        end_is = here;
      }

  pub Staged-stage_leaf :
      (s s' : Staging) (item : Leaf) (limit : Option ℕ) (policy : Option Stored)
      (starts : List String) (end : String)
      → stage_leaf prefix fresh hex s item limit policy ≡ returns (s', starts, end)
      → IsClosed s
      → Staged s s' starts end
  Staged-stage_leaf s s' item limit policy starts end h closed =
      let (name, registry) = resolve_node prefix fresh hex item s.registry in
      let start = record s { registry = registry } in
      elim (Bool-cases (over_limit limit (count_of name start))) [
        | inl over ↦ absurd (ground (arith, h, over))
        | inr under ↦
            let same : alone prefix fresh hex
                  (add_execution prefix fresh hex start name none policy)
                ≡ (s', starts, end) =
              ground (arith, h, under) in
            let v = added start name none policy closed in
            subst (Good s) same (record {
              grows = v.grows;
              closed = v.closed;
              starts_are = v.starts_are;
              end_is = v.end_is;
            })
      ]

  pub Staged-segments :
      (s s₁ s' : Staging) (done : Option (List String × String)) (starts : List String)
      (end : String)
      → segments prefix fresh hex (s₁, done) ≡ returns (s', starts, end)
      → Sequenced s s₁ done
      → Staged s s' starts end
  Staged-segments s s₁ s' none starts end h v = absurd (ground (arith, h))
  Staged-segments s s₁ s' (some (first, last)) starts end h v =
      subst (Good s) (returned (s₁, first, last) (s', starts, end) h) (record {
        grows = v.grows;
        closed = v.closed;
        starts_are = v.done_is.0;
        end_is = v.done_is.1;
      })
