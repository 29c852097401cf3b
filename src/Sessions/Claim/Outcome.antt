-- ===== src/Sessions/Claim/Outcome.antt =====
-- What a successful claim has done.
use entourage.Prelude.{
  ℕ, suc, ◌+◌, String, Option, some, Bool, true, ◌≡◌, ◌⊎◌, sym, ap, inl, inr, arith, leb, returns,
  Bool-cases, Option-cases, >>=-inv, length, require,
}
use entourage.Sessions.Types.{Store, Session, Activation, value_error}
use entourage.Sessions.Table.{session, set_session}
use entourage.Sessions.Claim.{
  Request, next_row, deliver_deadline, timer_event, lease, take_lease, claim, max_claim, activation,
  after_pick, lease_length,
}
use entourage.Sessions.Mailing.{append_event, positive}
use entourage.Sessions.Mailing.Outcome.{session-append_event}

module _ (db : Store) (now : ℕ) (row : Session) where
  pub deliver_deadline-inv :
      {new : Bool} {db' : Store}
      → deliver_deadline db now row ≡ returns (new, db')
      → (db ≡ db')
        ⊎ ((d : ℕ) × (append_event db row.id (timer_event row d) true ≡ returns (new, db')))
  unfolding deliver_deadline
  deliver_deadline-inv h = elim (Option-cases row.deadline) [
    | inl never ↦ inl (ground arith)
    | inr (d, e) ↦ elim (Bool-cases (leb d now)) [
      | inl due ↦ inr (d, ground arith)
      | inr early ↦ inl (ground arith)
    ]
  ]

  -- Delivering a deadline changes no session.
  pub session-deliver_deadline :
      {new : Bool} {db' : Store}
      → deliver_deadline db now row ≡ returns (new, db')
      → (j : String) → session db' j ≡ session db j
  session-deliver_deadline h j = elim (deliver_deadline-inv h) [
    | inl same ↦ sym (ap (λ d. session d j) same)
    | inr (d, e) ↦ session-append_event db row.id (timer_event row d) true e j
  ]

-- What `take_lease` hands out, and the store that it leaves.
pub take_lease-inv :
    (r : Request) (db : Store) (now n : ℕ) (token : String) (row : Session)
    {got : Option Activation} {db' : Store}
    → take_lease r db now n token row ≡ returns (got, db')
    → (mid : Store) × (new : Bool) × (deliver_deadline db now row ≡ returns (new, mid))
      × (db' ≡ set_session mid row.id (lease token (now + n) r.worker (max_claim mid.sessions + 1)))
      × (got ≡ some (activation r row token db'))
unfolding take_lease
take_lease-inv r db now n token row {got} {db'} h =
    let ((new, mid), delivered, rest) = >>=-inv (deliver_deadline db now row) _ h in
    (mid, new, delivered, ground arith, ground arith)

pub claim-inv :
    (db : Store) (r : Request) (now : ℕ) (token : String) {got : Option Activation} {db' : Store}
    → claim db r now token ≡ returns (got, db')
    → (n : ℕ) × (chosen : Option Session) × (mid : Store) × (lease_length r.lease_seconds
        ≡ returns n)
      × (next_row (suc (length db.sessions)) r now db ≡ some (chosen, mid))
      × (after_pick r now n token (some (chosen, mid)) ≡ returns (got, db'))
unfolding claim
claim-inv db r now token h =
    let (n, e, h₁) = >>=-inv (lease_length r.lease_seconds) _ h in
    let (_, _, h₂) = >>=-inv (require (positive r.max_events) value_error) _ h₁ in
    let (_, _, h₃) = >>=-inv (require (positive r.max_attempts) value_error) _ h₂ in
    elim (Option-cases (next_row (suc (length db.sessions)) r now db)) [
      | inl out ↦ absurd (ground arith)
      | inr ((chosen, mid), e') ↦ (n, chosen, mid, e, e', ground arith)
    ]
