-- ===== src/Sessions/Checkpoint/Outcome.antt =====
-- What a successful commit has done, and mail that is pending.
use entourage.Prelude.{
  ℕ, String, Option, none, some, List, [], ◌∷◌, Bool, true, not, ◌&&◌, ◌||◌, ◌≡◌, refl, arith, map,
  any, select, returns, >>=-inv, require, require-inv, is_empty, absent_or, Bool-cases,
  Option-cases, ◌⊎◌, inl, inr,
}
use entourage.Sessions.Types.{Store, Session, Input, Activation, Spawn, value_error, is_failed}
use entourage.Sessions.Table.{session, set_session, pending, is_pending, is_bound}
use entourage.Sessions.Ready.{has_mail}
use entourage.Sessions.Checkpoint.{
  Proposal, commit, validate, holder, create_children, incorporate, publish_all, checkpoint,
  park_deadline, rebind_allowed, subset_text, distinct_text, mem_text, id_of, retry, reinstate,
  parked_status,
}

is_empty-map-select :
    (id : String) (rows : List Input)
    → is_empty (map (λ (i : Input). i.event) (select (is_pending id) rows))
      ≡ not (any (is_pending id) rows)
unfolding select
is_empty-map-select id [] = refl
is_empty-map-select id (i ∷ rest) = ground (arith, is_empty-map-select id rest)

pub is_empty-pending : (db : Store) (id : String) → is_empty (pending db id) ≡ not (has_mail db id)
unfolding pending has_mail
is_empty-pending db id = is_empty-map-select id db.inputs

-- The parts of a commit that succeeded.
pub record Committed (db : Store) (a : Activation) (p : Proposal) (now held_at : ℕ) (db' : Store)
    : Type 0 where
  pub deadline : Option ℕ
  pub row : Session
  pub with_children : Store
  pub published : Store
  pub validated : validate a p ≡ returns deadline
  pub held : holder db held_at a ≡ returns row
  pub bound : absent_or (is_bound db) p.rebind ≡ true
  pub created : create_children db p.spawn ≡ returns with_children
  pub sent :
      publish_all (incorporate with_children a.session_id p.incorporated) p.publish
      ≡ returns published
  pub finished : (not p.complete || is_empty (pending published a.session_id)) ≡ true
  pub result : db' ≡ set_session published a.session_id (checkpoint p deadline now)

pub commit-Committed :
    (db : Store) (a : Activation) (p : Proposal) (now held_at : ℕ) {u : Unit {0}} {db' : Store}
    → commit db a p now held_at ≡ returns (u, db')
    → Committed db a p now held_at db'
unfolding commit
commit-Committed db a p now held_at h =
    let (deadline, e₁, h₁) = >>=-inv (validate a p) _ h in
    let (row, e₂, h₂) = >>=-inv (holder db held_at a) _ h₁ in
    let (_, e₃, h₃) = >>=-inv (require (absent_or (is_bound db) p.rebind) value_error) _ h₂ in
    let (db₁, e₄, h₄) = >>=-inv (create_children db p.spawn) _ h₃ in
    let (db₂, e₅, h₅) =
      >>=-inv (publish_all (incorporate db₁ a.session_id p.incorporated) p.publish) _ h₄ in
    let (_, e₆, h₆) =
      >>=-inv (require (not p.complete || is_empty (pending db₂ a.session_id)) value_error) _ h₅ in
    record {
      deadline = deadline;
      row = row;
      with_children = db₁;
      published = db₂;
      validated = e₁;
      held = e₂;
      bound = require-inv _ value_error e₃;
      created = e₄;
      sent = e₅;
      finished = require-inv _ value_error e₆;
      result = ground arith;
    }

-- What validation has checked of a proposal.
pub record Validated (a : Activation) (p : Proposal) (deadline : Option ℕ) : Type 0 where
  pub parked : park_deadline p.deadline p.complete ≡ returns deadline
  pub rebinds : rebind_allowed p.rebind p.complete a.executable ≡ true
  pub delivered : subset_text p.incorporated (map id_of a.events) ≡ true
  pub children :
      (distinct_text (map (λ (c : Spawn). c.session_id) p.spawn)
        && not (mem_text a.session_id (map (λ (c : Spawn). c.session_id) p.spawn)))
      ≡ true

pub validate-Validated :
    (a : Activation) (p : Proposal) {deadline : Option ℕ}
    → validate a p ≡ returns deadline
    → Validated a p deadline
unfolding validate
validate-Validated a p {deadline} h =
    let (d, e₁, h₁) = >>=-inv (park_deadline p.deadline p.complete) _ h in
    let (_, e₂, h₂) =
      >>=-inv (require (rebind_allowed p.rebind p.complete a.executable) value_error) _ h₁ in
    let (_, e₃, h₃) =
      >>=-inv (require (subset_text p.incorporated (map id_of a.events)) value_error) _ h₂ in
    let (_, e₄, h₄) = >>=-inv (require _ value_error) _ h₃ in
    record {
      parked = ground arith;
      rebinds = require-inv _ value_error e₂;
      delivered = require-inv _ value_error e₃;
      children = require-inv _ value_error e₄;
    }

-- A session that completes has no deadline.
pub complete_deadline :
    (a : Activation) (p : Proposal) {deadline : Option ℕ}
    → validate a p ≡ returns deadline
    → p.complete ≡ true
    → deadline ≡ none
complete_deadline a p h done = ground (arith, validate-Validated a p h)

pub retry-inv :
    (db : Store) (id : String) {b : Bool} {db' : Store}
    → retry db id ≡ returns (b, db')
    → (db ≡ db')
      ⊎ ((row : Session) × (session db id ≡ some row)
          × (is_failed row.status ≡ true)
          × (set_session db id (reinstate (parked_status row)) ≡ db'))
unfolding retry
retry-inv db id h = elim (Option-cases (session db id)) [
  | inl missing ↦ absurd (ground arith)
  | inr (row, found) ↦ elim (Bool-cases (is_failed row.status)) [
    | inl e ↦ inr (row, found, e, ground arith)
    | inr e ↦ inl (ground arith)
  ]
]
