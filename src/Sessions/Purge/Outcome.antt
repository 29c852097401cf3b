-- ===== src/Sessions/Purge/Outcome.antt =====
-- What a successful purge has done.
use entourage.Prelude.{ℕ, Option, ◌≡◌, arith, returns, >>=-inv, require, length}
use entourage.Sessions.Types.{Store, Instant, value_error}
use entourage.Sessions.Mailing.{positive}
use entourage.Sessions.Purge.{purge, purge_ids, finite, delete_sessions}

pub purge-inv :
    (db : Store) (before : Instant) (limit : Option ℕ) {n : ℕ} {db' : Store}
    → purge db before limit ≡ returns (n, db')
    → (t : ℕ) × (finite before ≡ returns t)
      × (n ≡ length (purge_ids db t limit))
      × (delete_sessions db (purge_ids db t limit) ≡ db')
unfolding purge
purge-inv db before limit h =
    let (t, e, h₁) = >>=-inv (finite before) _ h in
    let (_, _, h₂) = >>=-inv (require (positive limit) value_error) _ h₁ in
    (t, e, ground arith, ground arith)
