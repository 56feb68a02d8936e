-- ===== src/Ledger/Reconcile.antt =====
-- `reconcile` of packages/api/src/modules/ledger/ledger.service.ts: the users whose cached balance
-- disagrees with their ledger. The database's collation, by which names are ordered, is a parameter.
use mini_rewards_integration.Prelude.{
  String, Bool, not, ◌≡◌, ◌↔◌, refl, inl, inr, List, [], ◌∷◌, arith, Bool-cases, select, map,
  exists, ◌&&◌, if◌then◌else◌,
}
use mini_rewards_integration.Prelude.Int.{
  ℤ, ◌+ℤ◌, negate, eqb_ℤ, fits_int4, eqb_ℤ_sound, eqb_ℤ_refl,
}
use mini_rewards_integration.Database.Schema.{User, Db}
use mini_rewards_integration.Database.Exec.{Client, Result, ok, err, database, out_of_range}
use mini_rewards_integration.Ledger.Balances.{cached, ledger_sum}

pub record BalanceDiscrepancy : Type 0 where
  pub user_id : String
  pub display_name : String
  pub cached_balance : ℤ
  pub ledger_balance : ℤ
  pub difference : ℤ

-- One user's group: COALESCE(balance, 0) beside COALESCE(SUM(delta), 0).
abbrev pub grouped : Db → User → BalanceDiscrepancy
grouped db u =
    let c = cached u.id db.user_balances in
    let l = ledger_sum u.id db.point_transactions in
    record {
      user_id = u.id;
      display_name = u.display_name;
      cached_balance = c;
      ledger_balance = l;
      difference = c +ℤ negate l;
    }

-- The HAVING clause.
abbrev pub disagrees : BalanceDiscrepancy → Bool
disagrees d = not (eqb_ℤ d.cached_balance d.ledger_balance)

-- The casts `::int` of a row's three numbers.
abbrev pub overflows : BalanceDiscrepancy → Bool
overflows d =
    not (fits_int4 d.cached_balance && fits_int4 d.ledger_balance && fits_int4 d.difference)

module _ (name_le : String → String → Bool) where
  -- ORDER BY display_name
  pub place : BalanceDiscrepancy → List BalanceDiscrepancy → List BalanceDiscrepancy
  place d [] = d ∷ []
  place d (e ∷ es) =
      let later = e ∷ place d es in
      if name_le d.display_name e.display_name then d ∷ e ∷ es else later

  pub by_name : List BalanceDiscrepancy → List BalanceDiscrepancy
  by_name [] = []
  by_name (d ∷ ds) = place d (by_name ds)

  abbrev pub reported : Db → List BalanceDiscrepancy
  reported db = by_name (select disagrees (map (grouped db) db.users))

  -- The query throws where a number of a row that it gives does not fit.
  unfoldable pub reconcile : Client (List BalanceDiscrepancy)
  reconcile db =
      if exists overflows (reported db)
      then (err (database out_of_range), db)
      else (ok (reported db), db)

-- Every listed user's books balance.
abbrev pub AllBalanced : Db → List User → Type 0
AllBalanced db [] = Unit
AllBalanced db (u ∷ us) =
    (cached u.id db.user_balances ≡ ledger_sum u.id db.point_transactions) × AllBalanced db us

module _ (name_le : String → String → Bool) where
  place-ne-nil :
      (d : BalanceDiscrepancy) (ds : List BalanceDiscrepancy) → place name_le d ds ≡ [] → ⊥
  unfolding place
  place-ne-nil d [] h = cc
  place-ne-nil d (e ∷ es) h = ground arith

  healthy_sound :
      (db : Db) (us : List User)
      → by_name name_le (select disagrees (map (grouped db) us)) ≡ []
      → AllBalanced db us
  unfolding by_name
  healthy_sound db [] h = tt
  healthy_sound db (u ∷ us) h =
      elim (Bool-cases
        (eqb_ℤ (cached u.id db.user_balances) (ledger_sum u.id db.point_transactions))) [
          | inl same ↦ (eqb_ℤ_sound _ _ same, healthy_sound db us (rw same at h))
          | inr differs ↦ absurd (place-ne-nil (grouped db u) _ (rw differs at h))
        ]

  healthy_complete :
      (db : Db) (us : List User)
      → AllBalanced db us
      → by_name name_le (select disagrees (map (grouped db) us)) ≡ []
  unfolding by_name
  healthy_complete db [] h = refl
  healthy_complete db (u ∷ us) h =
      let same = eqb_ℤ_refl (ledger_sum u.id db.point_transactions) in
      rw (h.0, same) (healthy_complete db us h.1)

  -- The report is there and empty exactly when the cached balance of every user is the sum of its ledger.
  pub reconcile_healthy : (db : Db) → (reconcile name_le db ≡ (ok [], db)) ↔ AllBalanced db db.users
  unfolding reconcile
  reconcile_healthy db = (
    λ h. elim (Bool-cases (exists overflows (reported name_le db))) [
      | inl wide ↦ cc (rw wide at h)
      | inr narrow ↦ healthy_sound db db.users (answered (reported name_le db) (rw narrow at h))
    ],
    λ balanced. rw (healthy_complete db db.users balanced) refl,
  )
    where
      answered :
          (ds : List BalanceDiscrepancy)
          → Path (Result (List BalanceDiscrepancy) × Db) (ok ds, db) (ok [], db)
          → ds ≡ []
      answered ds h = cc
