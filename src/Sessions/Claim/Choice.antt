-- ===== src/Sessions/Claim/Choice.antt =====
-- Which session `claim` chooses: a ready one, and among those the one claimed longest ago.
use entourage.Prelude.{
  ℕ, ◌≤◌, none, some, List, [], ◌∷◌, true, ◌≡◌, refl, subst, ◌⊎◌, Bool-cases, arith, leb, All,
  All-select, All-map, select-test, Option-cases, inl, inr, find,
}
use entourage.Sessions.Types.{Session, Store}
use entourage.Sessions.Table.{session, with_id}
use entourage.Sessions.Table.Rows.{DistinctIds, All-Found}
use entourage.Sessions.Claim.{Request, eligible, least_recent, candidate}

least_recent-cons :
    (t : Session) (rest : List Session) {s : Session}
    → least_recent (t ∷ rest) ≡ some s
    → (t ≡ s) ⊎ (least_recent rest ≡ some s)
unfolding least_recent
least_recent-cons t rest e = elim (Option-cases (least_recent rest)) [
  | inl none_left ↦ inl (ground arith)
  | inr (u, found) ↦ elim (Bool-cases (leb t.last_claim u.last_claim)) [
    | inl le ↦ inl (ground arith)
    | inr gt ↦ inr (ground arith)
  ]
]

least_recent-All {κ} :
    (P : Session → Type κ) (rows : List Session) {s : Session}
    → All P rows
    → least_recent rows ≡ some s
    → P s
least_recent-All P [] h e = absurd (unfold least_recent in cc)
least_recent-All P (t ∷ rest) h e = elim (least_recent-cons t rest e) [
  | inl same ↦ subst P same h.0
  | inr found ↦ least_recent-All P rest h.1 found
]

pub least_recent-none : (rows : List Session) → least_recent rows ≡ none → rows ≡ []
unfolding least_recent
least_recent-none [] h = refl
least_recent-none (s ∷ rest) h = ground arith

-- No row was claimed longer ago than the first of the least recent.
pub least_recent-le :
    (rows : List Session) {s : Session}
    → least_recent rows ≡ some s
    → All (λ t. s.last_claim ≤ t.last_claim) rows
unfolding least_recent
least_recent-le [] e = tt
least_recent-le (t ∷ rest) {s} e = elim (Option-cases (least_recent rest)) [
  | inl none_left ↦ rw (least_recent-none rest none_left) (ground arith)
  | inr (u, found) ↦ elim (Bool-cases (leb t.last_claim u.last_claim)) [
    | inl le ↦ (
      ground arith,
      All-map (λ x. u.last_claim ≤ x.last_claim) rest (λ x h. ground arith)
          (least_recent-le rest found),
    )
    | inr gt ↦ (
      ground arith,
      All-map (λ x. u.last_claim ≤ x.last_claim) rest (λ x h. ground arith)
          (least_recent-le rest found),
    )
  ]
]

-- The candidate is the row of its key, and passes the filter.
pub candidate-eligible :
    (r : Request) (db : Store) (now : ℕ) {s : Session}
    → DistinctIds db.sessions
    → candidate r db now ≡ some s
    → (session db s.id ≡ some s) × (eligible r db now s ≡ true)
unfolding candidate session
candidate-eligible r db now {s} keys h = (
  least_recent-All (λ t. find (with_id t.id) db.sessions ≡ some t) _
      (All-select _ (eligible r db now) db.sessions (All-Found db.sessions keys)) h,
  least_recent-All (λ t. eligible r db now t ≡ true) _ (select-test (eligible r db now) db.sessions)
      h,
)
