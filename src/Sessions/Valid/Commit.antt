-- ===== src/Sessions/Valid/Commit.antt =====
-- The invariant through `commit`.
use entourage.Prelude.{
  ℕ, Option, none, List, [], ◌∷◌, true, false, ◌≡◌, refl, sym, subst, arith, returns, >>=-inv,
  Bool-cases, inl, inr, require,
}
use entourage.Sessions.Types.{Store, Session, Activation, Spawn, Publication, value_error}
use entourage.Sessions.Table.{is_bound}
use entourage.Sessions.Mailing.{create, append_event}
use entourage.Sessions.Checkpoint.{Proposal, commit, create_children, publish_all, checkpoint}
use entourage.Sessions.Checkpoint.Outcome.{is_empty-pending, commit-Committed, complete_deadline}
use entourage.Sessions.Valid.{IsValid, IsCoherent, set_session-IsValid}
use entourage.Sessions.Valid.Mail.{append_event-IsValid, create-IsValid}
use entourage.Sessions.Valid.Incorporate.{incorporate-IsValid}

create_children-IsValid :
    (db : Store) (children : List Spawn) {db' : Store}
    → create_children db children ≡ returns db'
    → IsValid db
    → IsValid db'
unfolding create_children
create_children-IsValid db [] h v = subst IsValid (ground arith) v
create_children-IsValid db (c ∷ rest) h v =
    let (_, _, h₁) = >>=-inv (require (is_bound db c.executable) value_error) _ h in
    let ((_, db₁), e, h₂) = >>=-inv (create db c.session_id c.executable c.state) _ h₁ in
    create_children-IsValid db₁ rest h₂ (create-IsValid db c.session_id c.executable c.state e v)

publish_all-IsValid :
    (db : Store) (mail : List Publication) {db' : Store}
    → publish_all db mail ≡ returns db'
    → IsValid db
    → IsValid db'
unfolding publish_all
publish_all-IsValid db [] h v = subst IsValid (ground arith) v
publish_all-IsValid db (p ∷ rest) h v =
    let ((_, db₁), e, h₁) = >>=-inv (append_event db p.session_id p.event false) _ h in
    publish_all-IsValid db₁ rest h₁ (append_event-IsValid db p.session_id p.event false e v)

checkpoint-IsCoherent :
    (p : Proposal) (deadline : Option ℕ) (now : ℕ) (s : Session)
    → (p.complete ≡ true → deadline ≡ none)
    → IsCoherent (checkpoint p deadline now s)
checkpoint-IsCoherent p deadline now s h = elim (Bool-cases p.complete) [
  | inl e ↦ rw e (refl, refl, h e, refl)
  | inr e ↦ rw e (refl, omega arith, refl)
]

-- A commit keeps the invariant: it leaves the session parked or complete, and complete only with no
-- mail pending; the children and the mail that it creates have their place too.
pub commit-IsValid :
    (db : Store) (a : Activation) (p : Proposal) (now held_at : ℕ) {u : Unit {0}} {db' : Store}
    → commit db a p now held_at ≡ returns (u, db')
    → IsValid db
    → IsValid db'
commit-IsValid db a p now held_at h v =
    let c = commit-Committed db a p now held_at h in
    subst IsValid (sym c.result) (
      set_session-IsValid (checkpoint p c.deadline now) (λ t. refl) c.published a.session_id
        (λ s e k. checkpoint-IsCoherent p c.deadline now s (complete_deadline a p c.validated))
        (λ s e k. ground (arith, is_empty-pending c.published a.session_id, c.finished))
        (publish_all-IsValid _ p.publish c.sent (
          incorporate-IsValid c.with_children a.session_id p.incorporated
            (create_children-IsValid db p.spawn c.created v))))
