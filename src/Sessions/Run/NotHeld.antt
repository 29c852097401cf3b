-- ===== src/Sessions/Run/NotHeld.antt =====
-- Which calls keep a session from holding a given token: all but the claim that mints it.
use entourage.Prelude.{
  ℕ, zero, suc, ◌+◌, String, Option, none, some, List, [], ◌∷◌, Bool, false, ◌≡◌, refl, sym, subst,
  ◌∙◌, returns, inl, inr, arith, Option-cases, Bool-cases, >>=-inv, ◌==◌, require,
}
use entourage.Mail.{Json, Event}
use entourage.Sessions.Types.{Store, Session, Activation, Spawn, Publication, value_error}
use entourage.Sessions.Table.{session, set_session, is_bound}
use entourage.Sessions.Table.Rows.{session-set_session_inv}
use entourage.Sessions.Mailing.{create, append_event}
use entourage.Sessions.Mailing.Outcome.{session-append_event, create-inv, session-new_session}
use entourage.Sessions.Checkpoint.{
  text_eq, create_children, publish_all, incorporate, incorporate_one,
}
use entourage.Sessions.Claim.{
  Request, next_row, candidate, attempts_left, exhaust, lease, after_pick, max_claim,
}
use entourage.Sessions.Claim.Outcome.{take_lease-inv, session-deliver_deadline}
use entourage.Sessions.Purge.{delete_sessions, delete_one}
use entourage.Sessions.Valid.Purged.{session-delete_one}

-- The session does not hold this token.
abbrev pub NotHeld : String → String → Store → Type 0
NotHeld id token db = (row : Session) → session db id ≡ some row → text_eq row.token token ≡ false

module _ (id token : String) where
  pub NotHeld-same :
      (db db' : Store)
      → ((j : String) → session db' j ≡ session db j)
      → NotHeld id token db
      → NotHeld id token db'
  NotHeld-same db db' same h row e = h row (sym (same id) ∙ e)

  pub NotHeld-set_session :
      (f : Session → Session)
      → ((s : Session) → (f s).id ≡ s.id)
      → ((s : Session) → text_eq s.token token ≡ false → text_eq (f s).token token ≡ false)
      → (db : Store) (j : String) → NotHeld id token db
      → NotHeld id token (set_session db j f)
  NotHeld-set_session f same clean db j h row e =
      elim (session-set_session_inv f same db j id row e) [
        | inr before ↦ h row before
        | inl (s, key, found, e') ↦
            subst (λ (t : Session). text_eq t.token token ≡ false) e'
              (clean s (h s (subst (λ k. session db k ≡ some s) key found)))
      ]

  pub NotHeld-append_event :
      (db : Store) (j : String) (event : Event) (timer : Bool) {new : Bool} {db' : Store}
      → append_event db j event timer ≡ returns (new, db')
      → NotHeld id token db
      → NotHeld id token db'
  NotHeld-append_event db j event timer {new} {db'} e h =
      NotHeld-same db db' (session-append_event db j event timer e) h

  pub NotHeld-create :
      (db : Store) (j executable : String) (state : Json) {u : Unit {0}} {db' : Store}
      → create db j executable state ≡ returns (u, db')
      → NotHeld id token db
      → NotHeld id token db'
  NotHeld-create db j executable state e h row found =
      let (free, made) = create-inv db j executable state e in
      let found' = subst (λ d. session d id ≡ some row) made found in
      ground (arith, session-new_session db j executable state free id, h row)

  pub NotHeld-children :
      (db : Store) (children : List Spawn) {db' : Store}
      → create_children db children ≡ returns db'
      → NotHeld id token db
      → NotHeld id token db'
  unfolding create_children
  NotHeld-children db [] e h = subst (NotHeld id token) (ground arith) h
  NotHeld-children db (c ∷ rest) e h =
      let (_, _, h₁) = >>=-inv (require (is_bound db c.executable) value_error) _ e in
      let ((_, db₁), made, h₂) = >>=-inv (create db c.session_id c.executable c.state) _ h₁ in
      NotHeld-children db₁ rest h₂ (NotHeld-create db c.session_id c.executable c.state made h)

  pub NotHeld-publish :
      (db : Store) (mail : List Publication) {db' : Store}
      → publish_all db mail ≡ returns db'
      → NotHeld id token db
      → NotHeld id token db'
  unfolding publish_all
  NotHeld-publish db [] e h = subst (NotHeld id token) (ground arith) h
  NotHeld-publish db (p ∷ rest) e h =
      let ((_, db₁), sent, h₁) = >>=-inv (append_event db p.session_id p.event false) _ e in
      NotHeld-publish db₁ rest h₁ (NotHeld-append_event db p.session_id p.event false sent h)

  pub NotHeld-incorporate :
      (db : Store) (j : String) (event_ids : List String)
      → NotHeld id token db
      → NotHeld id token (incorporate db j event_ids)
  unfolding incorporate
  NotHeld-incorporate db j [] h = h
  NotHeld-incorporate db j (e ∷ rest) h =
      NotHeld-incorporate (incorporate_one db j e) j rest
        (NotHeld-same db (incorporate_one db j e) (λ k. unfold session incorporate_one in refl) h)

  pub NotHeld-next_row :
      (fuel : ℕ) (r : Request) (now : ℕ) (db : Store) (chosen : Option Session) (db' : Store)
      → next_row fuel r now db ≡ some (chosen, db')
      → NotHeld id token db
      → NotHeld id token db'
  unfolding next_row
  NotHeld-next_row zero r now db chosen db' e h = cc
  NotHeld-next_row (suc fuel) r now db chosen db' e h = elim (Option-cases (candidate r db now)) [
    | inl idle ↦ subst (NotHeld id token) (ground arith) h
    | inr (s, picked) ↦ elim (Bool-cases (attempts_left r s)) [
      | inl left ↦ subst (NotHeld id token) (ground arith) h
      | inr spent ↦
          NotHeld-next_row fuel r now (set_session db s.id exhaust) chosen db'
            (rw (picked, spent, next_row) at e)
            (NotHeld-set_session exhaust (λ t. refl) (λ t _. refl) db s.id h)
    ]
  ]

  pub NotHeld-after_pick :
      (r : Request) (now n : ℕ) (fresh : String) (chosen : Option Session) (db : Store)
      {got : Option Activation} {db' : Store}
      → (fresh == token) ≡ false
      → after_pick r now n fresh (some (chosen, db)) ≡ returns (got, db')
      → NotHeld id token db
      → NotHeld id token db'
  NotHeld-after_pick r now n fresh none db d e h = subst (NotHeld id token) (ground arith) h
  NotHeld-after_pick r now n fresh (some row) db d e h =
      let (mid, new, delivered, e', _) = take_lease-inv r db now n fresh row e in
      subst (NotHeld id token) (sym e') (
        NotHeld-set_session (lease fresh (now + n) r.worker (max_claim mid.sessions + 1))
          (λ t. refl) (λ t _. d) mid row.id
          (NotHeld-same db mid (session-deliver_deadline db now row delivered) h))

  pub NotHeld-delete :
      (db : Store) (ids : List String)
      → NotHeld id token db
      → NotHeld id token (delete_sessions db ids)
  unfolding delete_sessions
  NotHeld-delete db [] h = h
  NotHeld-delete db (j ∷ rest) h =
      NotHeld-delete (delete_one db j) rest
        (λ row e. ground (arith, session-delete_one db j id, h row))
