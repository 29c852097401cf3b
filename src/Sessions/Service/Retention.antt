-- ===== src/Sessions/Service/Retention.antt =====
-- What a purge removes, and what it keeps.
use entourage.Prelude.{
  if◌then◌else◌, select, ◌||◌, ℕ, zero, suc, String, Option, none, some, List, [], ◌∷◌, Bool, true,
  false, ◌≡◌, refl, ap, subst, ◌∙◌, inl, inr, arith, returns, map, take, All, All-select,
  select-test, find, ◌==◌, eq_iff, Bool-cases,
}
use entourage.Sessions.Types.{Store, Session, Instant}
use entourage.Sessions.Table.{session, with_id}
use entourage.Sessions.Table.Rows.{All-Found}
use entourage.Sessions.Mailing.{limited}
use entourage.Prelude.{mem_text}
use entourage.Sessions.Purge.{
  purge, purgeable, purge_ids, delete_sessions, delete_one, by_completion, insert_completed,
  completed_le,
}
use entourage.Sessions.Purge.Outcome.{purge-inv}
use entourage.Sessions.Valid.{IsValid}
use entourage.Sessions.Valid.Purged.{session-delete_one}

session-delete_sessions :
    (db : Store) (ids : List String) (j : String)
    → session (delete_sessions db ids) j ≡ (if mem_text j ids then none else session db j)
unfolding delete_sessions
session-delete_sessions db [] j = refl
session-delete_sessions db (id ∷ rest) j =
    session-delete_sessions (delete_one db id) rest j ∙ ground (arith, session-delete_one db id j)

insert_completed-All {κ} :
    (P : Session → Type κ) (s : Session) (rows : List Session)
    → P s
    → All P rows
    → All P (insert_completed s rows)
unfolding insert_completed
insert_completed-All P s [] h hs = (h, tt)
insert_completed-All P s (t ∷ rest) h hs = elim (Bool-cases (completed_le s t)) [
  | inl e ↦ rw (e, insert_completed) (h, hs)
  | inr e ↦ rw (e, insert_completed) (hs.0, insert_completed-All P s rest h hs.1)
]

by_completion-All {κ} :
    (P : Session → Type κ) (rows : List Session) → All P rows → All P (by_completion rows)
unfolding by_completion
by_completion-All P [] h = tt
by_completion-All P (s ∷ rest) h =
    insert_completed-All P s (by_completion rest) h.0 (by_completion-All P rest h.1)

take-All {κ} :
    (P : Session → Type κ) (n : ℕ) (rows : List Session) → All P rows → All P (take n rows)
take-All P zero rows h = tt
take-All P (suc n) [] h = tt
take-All P (suc n) (s ∷ rest) h = (h.0, take-All P n rest h.1)

limited-All {κ} :
    (P : Session → Type κ) (limit : Option ℕ) (rows : List Session)
    → All P rows
    → All P (limited limit rows)
limited-All P none rows h = h
limited-All P (some n) rows h = take-All P n rows h

-- An ID among those of rows with a property is the key of a row with it.
mem-map :
    (P : Session → Type 0) (j : String) (rows : List Session)
    → All P rows
    → mem_text j (map (λ (s : Session). s.id) rows) ≡ true
    → (s : Session) × (s.id ≡ j) × P s
mem-map P j [] h m = absurd (ground arith)
mem-map P j (s ∷ rest) h m = elim (Bool-cases (s.id == j)) [
  | inl e ↦ (s, (eq_iff s.id j).0 e, h.0)
  | inr e ↦ mem-map P j rest h.1 (ground arith)
]

abbrev Doomed : Store → ℕ → Session → Type 0
Doomed db before s = (session db s.id ≡ some s) × (purgeable before s ≡ true)

All-zip {κ μ} :
    (P : Session → Type κ) (Q : Session → Type μ) (rows : List Session)
    → All P rows
    → All Q rows
    → All (λ s. P s × Q s) rows
All-zip P Q [] hp hq = tt
All-zip P Q (s ∷ rest) hp hq = ((hp.0, hq.0), All-zip P Q rest hp.1 hq.1)

purge_ids-Doomed :
    (db : Store) (before : ℕ) (limit : Option ℕ)
    → IsValid db
    → All (Doomed db before) (limited limit (by_completion (select (purgeable before) db.sessions)))
unfolding session
purge_ids-Doomed db before limit v = limited-All _ limit _ (
    by_completion-All _ _ (
      All-zip (λ s. find (with_id s.id) db.sessions ≡ some s) (λ s. purgeable before s ≡ true) _
        (All-select _ (purgeable before) db.sessions (All-Found db.sessions v.keys))
        (select-test (purgeable before) db.sessions)))

-- A purge keeps every session that is not complete or was completed at or after the given time, with
-- its row as it was.
pub purge_keeps :
    (db db' : Store) (before : ℕ) (limit : Option ℕ) (n : ℕ) (j : String) (s : Session)
    → IsValid db
    → purge db (Instant.at before) limit ≡ returns (n, db')
    → session db j ≡ some s
    → purgeable before s ≡ false
    → session db' j ≡ some s
purge_keeps db db' before limit n j s v h found kept =
    let (t, e, _, done) = purge-inv db (Instant.at before) limit h in
    elim (Bool-cases (mem_text j (purge_ids db t limit))) [
      | inr other ↦
          subst (λ d. session d j ≡ some s) done
            (ground (arith, session-delete_sessions db (purge_ids db t limit) j))
      | inl m ↦
          let (x, key, (there, old)) =
            mem-map (Doomed db t) j _ (purge_ids-Doomed db t limit v) (unfold purge_ids in m) in
          let here : session db j ≡ some x = subst (λ k. session db k ≡ some x) key there in
          let this : x ≡ s = ground arith in absurd (ground (arith, ap (purgeable t) this))
    ]

abbrev keys : List Session → List String
keys rows = map (λ (s : Session). s.id) rows

mem_text-insert :
    (j : String) (s : Session) (rows : List Session)
    → mem_text j (keys (insert_completed s rows)) ≡ (s.id == j || mem_text j (keys rows))
unfolding insert_completed
mem_text-insert j s [] = refl
mem_text-insert j s (t ∷ rest) = ground (arith, mem_text-insert j s rest)

mem_text-by_completion :
    (j : String) (rows : List Session)
    → mem_text j (keys (by_completion rows)) ≡ mem_text j (keys rows)
unfolding by_completion
mem_text-by_completion j [] = refl
mem_text-by_completion j (s ∷ rest) =
    mem_text-insert j s (by_completion rest)
    ∙ ap (λ b. s.id == j || b) (mem_text-by_completion j rest)

mem_text-select :
    (j : String) (p : Session → Bool) (rows : List Session) (s : Session)
    → find (with_id j) rows ≡ some s
    → p s ≡ true
    → mem_text j (keys (select p rows)) ≡ true
unfolding find select
mem_text-select j p [] s h e = absurd (ground arith)
mem_text-select j p (t ∷ rest) s h e = ground (arith, mem_text-select j p rest s)

doomed_listed :
    (db : Store) (before : ℕ) (j : String) (s : Session)
    → session db j ≡ some s
    → purgeable before s ≡ true
    → mem_text j (purge_ids db before none) ≡ true
unfolding session purge_ids
doomed_listed db before j s found old =
    mem_text-by_completion j (select (purgeable before) db.sessions)
    ∙ mem_text-select j (purgeable before) db.sessions s found old

-- A purge with no limit removes every session that was completed before the given time.
pub purge_removes :
    (db db' : Store) (before n : ℕ) (j : String) (s : Session)
    → purge db (Instant.at before) none ≡ returns (n, db')
    → session db j ≡ some s
    → purgeable before s ≡ true
    → session db' j ≡ none
purge_removes db db' before n j s h found old =
    let (t, e, _, done) = purge-inv db (Instant.at before) none h in
    let same : before ≡ t = ground arith in
    subst (λ d. session d j ≡ none) done
      (session-delete_sessions db (purge_ids db t none) j
        ∙ ground (arith, doomed_listed db t j s found (subst (λ b. purgeable b s ≡ true) same old)))
