-- ===== src/Sessions/Valid/Holder.antt =====
-- The invariant through `release` and `retry`, and what a holder's row looks like.
use entourage.Prelude.{
  ℕ, String, Option, none, some, Bool, true, ◌≡◌, refl, subst, inl, inr, arith, ltb, returns,
  Bool-cases, Option-cases, is_some, >>=-inv,
}
use entourage.Sessions.Types.{Store, Session, Status, is_failed, Activation, Seconds}
use entourage.Sessions.Types.Status.{ready, active, waiting, complete, failed}
use entourage.Sessions.Table.{session}
use entourage.Sessions.Checkpoint.{
  release, retry, holder, holds_lease, drop_lease, reinstate, parked_status, backoff,
}
use entourage.Sessions.Valid.{IsValid, IsCoherent, Columns, set_session-IsValid}

pub holder-inv :
    (db : Store) (now : ℕ) (a : Activation) {row : Session}
    → holder db now a ≡ returns row
    → (session db a.session_id ≡ some row) × (holds_lease a now row ≡ true)
unfolding holder
holder-inv db now a h = elim (Option-cases (session db a.session_id)) [
  | inl missing ↦ absurd (ground arith)
  | inr (s, found) ↦ elim (Bool-cases (holds_lease a now s)) [
    | inl held ↦ (ground arith, ground arith)
    | inr stale ↦ absurd (ground arith)
  ]
]

Columns-token : (t : Status) (s : Session) → Columns t s → is_some s.token ≡ true → t ≡ active
Columns-token ready s c h = absurd (ground arith)
Columns-token active s c h = refl
Columns-token waiting s c h = absurd (ground arith)
Columns-token complete s c h = absurd (ground arith)
Columns-token failed s c h = absurd (ground arith)

-- Only an active session has a holder.
pub held-active :
    (db : Store) (now : ℕ) (a : Activation) {row : Session}
    → IsValid db
    → holder db now a ≡ returns row
    → row.status ≡ active
held-active db now a {row} v h =
    let (found, held) = holder-inv db now a h in
    Columns-token row.status row (v.rows a.session_id row found) (ground arith)

parked_Columns :
    (row s : Session)
    → s.token ≡ none
    → s.revision ≡ row.revision
    → s.completed_at ≡ none
    → Columns (parked_status row) s
parked_Columns row s h₁ h₂ h₃ = elim (Bool-cases (ltb 0 row.revision)) [
  | inl e ↦ rw e (h₁, ground arith, h₃)
  | inr e ↦ rw e (h₁, ground arith, h₃)
]

active_completed_at : (s : Session) → s.status ≡ active → IsCoherent s → s.completed_at ≡ none
active_completed_at s e c = (subst (λ t. Columns t s) e c).2

-- A release keeps the invariant.
pub release-IsValid :
    (db : Store) (a : Activation) (error : Option String) (retry_after : Option Seconds)
    (now later : ℕ) {u : Unit {0}} {db' : Store}
    → release db a error retry_after now later ≡ returns (u, db')
    → IsValid db
    → IsValid db'
unfolding release
release-IsValid db a error retry_after now later h v =
    let (until, _, h₁) = >>=-inv (backoff retry_after later) _ h in
    let (row, held, h₂) = >>=-inv (holder db now a) _ h₁ in
    let (found, _) = holder-inv db now a held in
    subst IsValid (ground arith) (
      set_session-IsValid (drop_lease (parked_status row) until error) (λ t. refl) db a.session_id
        (λ s e c.
          parked_Columns row (drop_lease (parked_status row) until error s) refl (ground arith)
            (active_completed_at s (ground (arith, held-active db now a v held)) c))
        (λ s e c. absurd (ground arith)) v)

-- A retry keeps the invariant.
pub retry-IsValid :
    (db : Store) (id : String) {b : Bool} {db' : Store}
    → retry db id ≡ returns (b, db')
    → IsValid db
    → IsValid db'
unfolding retry
retry-IsValid db id h v = elim (Option-cases (session db id)) [
  | inl missing ↦ absurd (ground arith)
  | inr (row, found) ↦ elim (Bool-cases (is_failed row.status)) [
    | inr other ↦ subst IsValid (ground arith) v
    | inl e ↦ subst IsValid (ground arith) (
        set_session-IsValid (reinstate (parked_status row)) (λ t. refl) db id
          (λ s e' c.
            let f : s.status ≡ failed = ground arith in
            let c' : Columns failed s = subst (λ t. Columns t s) f c in
            parked_Columns row (reinstate (parked_status row) s) c'.0 (ground arith) c'.2)
          (λ s e' c. absurd (ground arith)) v)
  ]
]
