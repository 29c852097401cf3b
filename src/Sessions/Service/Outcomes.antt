-- ===== src/Sessions/Service/Outcomes.antt =====
-- What a commit leaves behind in the table of sessions.
use entourage.Prelude.{
  mem_text, if◌then◌else◌, ℕ, String, Option, none, some, Bool, update, ◌++◌, true, false, ◌≡◌,
  refl, ap, ◌∙◌, arith, returns, All, ◌==◌, eq_iff, eq_refl, List, [], ◌∷◌, map,
}
use entourage.Sessions.Types.{Store, Session, Activation, Spawn, Instant, at, not_finite}
use entourage.Sessions.Table.{session, set_session, with_id}
use entourage.Sessions.Table.Rows.{session-set_session}
use entourage.Sessions.Checkpoint.{Proposal, commit, holds_lease, checkpoint, park_deadline}
use entourage.Sessions.Checkpoint.Outcome.{commit-Committed, Committed, validate-Validated}
use entourage.Sessions.Valid.Holder.{holder-inv}
use entourage.Sessions.Service.Rows.{
  Born, create_children-Born, create_children-keeps, session-publish_all, session-incorporate,
  born_rows, sessions-create_children, sessions-incorporate, sessions-publish_all,
}

-- Reading any session after the commit.
session-commit :
    (db db' : Store) (a : Activation) (p : Proposal) (now held_at : ℕ)
    → (c : Committed db a p now held_at db') → (j : String) (s : Session)
    → session c.with_children j ≡ some s
    → session db' j ≡ (if a.session_id == j then some (checkpoint p c.deadline now s) else some s)
session-commit db db' a p now held_at c j s found =
    ap (λ d. session d j) c.result
    ∙ ground (
      arith,
      session-set_session (checkpoint p c.deadline now) (λ t. refl) c.published a.session_id j,
      session-publish_all _ p.publish c.sent j,
      session-incorporate c.with_children a.session_id p.incorporated j,
      found,
    )

others_Born :
    (db db' : Store) (a : Activation) (p : Proposal) (now held_at : ℕ)
    (c : Committed db a p now held_at db') (children : List Spawn)
    → mem_text a.session_id (map (λ (x : Spawn). x.session_id) children) ≡ false
    → All (Born c.with_children) children
    → All (Born db') children
others_Born db db' a p now held_at c [] new h = tt
others_Born db db' a p now held_at c (x ∷ rest) new h = (
  ground (
    arith,
    session-commit db db' a p now held_at c x.session_id _ h.0,
    eq_iff a.session_id x.session_id,
    eq_iff x.session_id a.session_id,
  ),
  others_Born db db' a p now held_at c rest (ground arith) h.1,
)

-- The instant that a proposal asks to be woken at.
abbrev pub asked : Option ℕ → Option Instant
asked none = none
asked (some t) = some (at t)

park_deadline-asked :
    (d : Option Instant) (finished : Bool) (deadline : Option ℕ)
    → park_deadline d finished ≡ returns deadline
    → d ≡ asked deadline
park_deadline-asked none finished deadline h = ground (arith, h)
park_deadline-asked (some (at t)) false deadline h = ground (arith, h)
park_deadline-asked (some (at t)) true deadline h = absurd (ground (arith, h))
park_deadline-asked (some not_finite) finished deadline h = absurd (ground (arith, h))

-- A commit that succeeds was made by the holder of a live lease, and its deadline is the proposal's. The
-- table of sessions is the old one followed by one row for each child, with the checkpointed row in
-- place of the activation's session: so reading that session gives the checkpoint, each child is there
-- as created, and every other session that was there is as it was.
pub commit_sessions :
    (db db' : Store) (a : Activation) (p : Proposal) (now held_at : ℕ)
    → commit db a p now held_at ≡ returns (tt, db')
    → (row : Session) × (deadline : Option ℕ) × (session db a.session_id ≡ some row)
      × (holds_lease a held_at row ≡ true)
      × (p.deadline ≡ asked deadline)
      × (db'.sessions
          ≡ update
              (with_id a.session_id)
              (checkpoint p deadline now)
              (db.sessions ++ born_rows p.spawn))
      × (session db' a.session_id ≡ some (checkpoint p deadline now row))
      × All (Born db') p.spawn
      × ((j : String) (s : Session)
          → (a.session_id == j) ≡ false
          → session db j ≡ some s
          → session db' j ≡ some s)
commit_sessions db db' a p now held_at h =
    let c = commit-Committed db a p now held_at h in
    let (found, held) = holder-inv db held_at a c.held in
    let kept = create_children-keeps db p.spawn c.created in
    let rows =
      sessions-publish_all _ p.publish c.sent
      ∙ sessions-incorporate c.with_children a.session_id p.incorporated
      ∙ sessions-create_children db p.spawn c.created in
    (
      c.row,
      c.deadline,
      found,
      held,
      park_deadline-asked p.deadline p.complete c.deadline
          (validate-Validated a p c.validated).parked,
      ap (λ (d : Store). d.sessions) c.result
          ∙ unfold set_session in
            ap (update (with_id a.session_id) (checkpoint p c.deadline now)) rows,
      session-commit db db' a p now held_at c a.session_id c.row (kept a.session_id c.row found)
          ∙ ground (arith, eq_refl a.session_id),
      others_Born db db' a p now held_at c p.spawn
          (ground (arith, (validate-Validated a p c.validated).children))
          (create_children-Born db p.spawn c.created),
      λ j s other there.
          session-commit db db' a p now held_at c j s (kept j s there) ∙ ground arith,
    )
