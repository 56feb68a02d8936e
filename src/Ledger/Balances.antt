-- ===== src/Ledger/Balances.antt =====
-- The cached balance of a user, the sum of the user's ledger, and the lock that materialises the
-- cached row (packages/api/src/modules/ledger/ledger.service.ts).
use mini_rewards_integration.Prelude.{
  ℕ, String, Bool, true, false, ◌≡◌, refl, sym, inl, inr, some, List, [], ◌∷◌, ◌==◌, ◌&&◌, ◌||◌,
  arith, eq_iff, eq_refl, Bool-cases, find?, exists, update_where, if◌then◌else◌,
}
use mini_rewards_integration.Prelude.Int.{ℤ, pos, ◌+ℤ◌}
use mini_rewards_integration.Database.Schema.{PointTransaction, UserBalance, Db}
use mini_rewards_integration.Database.Exec.{
  foreign_key_violation, database, ok, err, balance, Session, acquire,
}
use mini_rewards_integration.Ledger.{insert_balance, balance_or_vanished, lock_balance}

-- The cached balance among the rows of user_balances: 0 where the user has no row.
unfoldable pub cached : String → List UserBalance → ℤ
cached u [] = pos 0
cached u (b ∷ bs) = if b.user_id == u then b.balance else cached u bs

-- SUM(delta) over the rows of one user.
unfoldable pub ledger_sum : String → List PointTransaction → ℤ
ledger_sum u [] = pos 0
ledger_sum u (t ∷ ts) =
    let rest = ledger_sum u ts in if t.user_id == u then t.delta +ℤ rest else rest

-- Every cached balance is the sum of its ledger.
abbrev pub IsReconciled : Db → Type 0
IsReconciled db = (u : String) → cached u db.user_balances ≡ ledger_sum u db.point_transactions

abbrev pub has_row : String → Db → Bool
has_row u db = exists (λ b. b.user_id == u) db.user_balances

abbrev pub is_user : String → Db → Bool
is_user u db = exists (λ x. x.id == u) db.users

-- The tables once the user's balance row is there.
abbrev pub materialised : ℕ → String → Db → Db
materialised now u db = if has_row u db then db else record db {
  user_balances = record { user_id = u; balance = pos 0; updated_at = now } ∷ db.user_balances;
}

pub cached-no_row :
    (u : String) (bs : List UserBalance)
    → exists (λ b. b.user_id == u) bs ≡ false
    → cached u bs ≡ pos 0
unfolding cached
cached-no_row u [] h = refl
cached-no_row u (b ∷ bs) h = ground (arith, cached-no_row u bs)

pub cached-row :
    (u : String) (bs : List UserBalance)
    → exists (λ b. b.user_id == u) bs ≡ true
    → (row : UserBalance) × (find? (λ b. b.user_id == u) bs ≡ some row)
      × (row.balance ≡ cached u bs)
unfolding cached
cached-row u [] h = cc
cached-row u (b ∷ bs) h = elim (Bool-cases (b.user_id == u)) [
  | inl e ↦ (b, rw e, rw e)
  | inr e ↦ let r = cached-row u bs (rw e at h) in (r.0, rw e r.1, rw e r.2)
]

-- Writing a balance changes that user's cached balance and no other.
pub cached-update_where :
    (v u : String) (now : ℕ) (x : ℤ) (bs : List UserBalance)
    → cached v
        (update_where (λ b. b.user_id == u) (λ b. record b { balance = x; updated_at = now }) bs)
      ≡ (if u == v && exists (λ b. b.user_id == u) bs then x else cached v bs)
unfolding cached
cached-update_where v u now x [] = ground arith
cached-update_where v u now x (b ∷ bs) =
    ground
      (arith, eq_iff b.user_id u, eq_iff b.user_id v, eq_iff u v, cached-update_where v u now x bs)

pub cached-materialised :
    (v u : String) (now : ℕ) (db : Db)
    → cached v (materialised now u db).user_balances ≡ cached v db.user_balances
unfolding cached
cached-materialised v u now db = ground (arith, eq_iff u v, cached-no_row u db.user_balances)

pub rewards-materialised :
    (now : ℕ) (u : String) (db : Db) → (materialised now u db).rewards ≡ db.rewards
rewards-materialised now u db = ground arith

pub redemptions-materialised :
    (now : ℕ) (u : String) (db : Db) → (materialised now u db).redemptions ≡ db.redemptions
redemptions-materialised now u db = ground arith

insert_balance_lem :
    (now : ℕ) (u : String) (s : Session)
    → insert_balance now u s ≡ (
        if has_row u s.db || is_user u s.db
        then (ok tt, record s { db = materialised now u s.db })
        else (err (database foreign_key_violation), s))
unfolding insert_balance
insert_balance_lem now u s = ground arith

find-materialised :
    (now : ℕ) (u : String) (db : Db)
    → (row : UserBalance) × (find? (λ b. b.user_id == u) (materialised now u db).user_balances
        ≡ some row)
      × (row.balance ≡ cached u db.user_balances)
find-materialised now u db = elim (Bool-cases (has_row u db)) [
  | inl old ↦ rw old (cached-row u db.user_balances old)
  | inr new ↦ rw (new, eq_refl u) (_, refl, sym (cached-no_row u db.user_balances new))
]

-- `lockBalance` of a known user yields the cached balance, with the row there and its lock held; of
-- an unknown user the database refuses it. Its own "vanished" throw is never reached.
pub lock_balance_lem :
    (now : ℕ) (u : String) (s : Session)
    → lock_balance now u s ≡ (
        if has_row u s.db || is_user u s.db
        then (
          ok (cached u s.db.user_balances),
          record { db = materialised now u s.db; locks = acquire (balance u) s.locks },
        )
        else (err (database foreign_key_violation), s))
unfolding lock_balance balance_or_vanished
lock_balance_lem now u s = elim (Bool-cases (has_row u s.db || is_user u s.db)) [
  | inl known ↦
      let (row, found, same) = find-materialised now u s.db in
      rw insert_balance_lem (rw known (rw (found, balance_or_vanished) (rw same)))
  | inr unknown ↦ rw insert_balance_lem (rw unknown)
]
