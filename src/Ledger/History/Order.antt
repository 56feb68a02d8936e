-- ===== src/Ledger/History/Order.antt =====
-- The order of a history (packages/api/src/modules/ledger/ledger.service.ts).
use mini_rewards_integration.Prelude.{
  String, Bool, true, false, ◌≡◌, ◌||◌, ◌==◌, List, [], ◌∷◌, arith, exists, select, Bool-cases, inl,
  inr,
}
use mini_rewards_integration.Prelude.Sort.{All, IsTold}
use mini_rewards_integration.Database.Schema.{PointTransaction}
use mini_rewards_integration.Ledger.History.{
  TransactionOrder, newest, oldest, Position, position, past, comes_before,
}

-- `<` on ids is a strict total order.
pub record IsIdOrder (id_lt : String → String → Bool) : Type 0 where
  pub asym : (a b : String) → id_lt a b ≡ true → id_lt b a ≡ false
  pub trans : (a b c : String) → id_lt a b ≡ true → id_lt b c ≡ true → id_lt a c ≡ true
  pub total : (a b : String) → (a == b) ≡ false → (id_lt a b || id_lt b a) ≡ true

-- The primary key of point_transactions.
abbrev pub HasUniqueIds : List PointTransaction → Type 0
HasUniqueIds [] = Unit
HasUniqueIds (t ∷ ts) = (exists (λ x. x.id == t.id) ts ≡ false) × HasUniqueIds ts

module _ (id_lt : String → String → Bool) (o : IsIdOrder id_lt) where
  past_asym :
      (order : TransactionOrder) (a b : Position)
      → past id_lt order a b ≡ true
      → past id_lt order b a ≡ false
  past_asym newest a b h = ground (arith, o.asym b.id a.id)
  past_asym oldest a b h = ground (arith, o.asym a.id b.id)

  pub past_trans :
      (order : TransactionOrder) (a b c : Position)
      → past id_lt order a b ≡ true
      → past id_lt order b c ≡ true
      → past id_lt order a c ≡ true
  past_trans newest a b c h k = ground (arith, o.trans c.id b.id a.id)
  past_trans oldest a b c h k = ground (arith, o.trans a.id b.id c.id)

  -- The order of the rows and the comparison with a cursor agree.
  pub comes_before-past :
      (order : TransactionOrder) (t u : PointTransaction)
      → comes_before id_lt order t u ≡ past id_lt order (position t) (position u)
  comes_before-past newest t u = ground arith
  comes_before-past oldest t u = ground arith

  pub comes_before_asym :
      (order : TransactionOrder) (t u : PointTransaction)
      → comes_before id_lt order t u ≡ true
      → comes_before id_lt order u t ≡ false
  comes_before_asym order t u h =
      rw (comes_before-past order u t)
        (past_asym order (position t) (position u) (rw (comes_before-past order t u) at h))

  pub comes_before_trans :
      (order : TransactionOrder) (t u v : PointTransaction)
      → comes_before id_lt order t u ≡ true
      → comes_before id_lt order u v ≡ true
      → comes_before id_lt order t v ≡ true
  comes_before_trans order t u v h k = rw (comes_before-past order t v) (
      past_trans order (position t) (position u) (position v)
        (rw (comes_before-past order t u) at h) (rw (comes_before-past order u v) at k))

  past_total :
      (order : TransactionOrder) (t u : PointTransaction)
      → (u.id == t.id) ≡ false
      → (comes_before id_lt order t u || comes_before id_lt order u t) ≡ true
  past_total newest t u h = ground (arith, o.total u.id t.id h)
  past_total oldest t u h = ground (arith, o.total u.id t.id h)

  told_apart :
      (order : TransactionOrder) (t : PointTransaction) (ts : List PointTransaction)
      → exists (λ x. x.id == t.id) ts ≡ false
      → All (λ u. (comes_before id_lt order t u || comes_before id_lt order u t) ≡ true) ts
  told_apart order t [] h = tt
  told_apart order t (u ∷ ts) h =
      (past_total order t u (ground arith), told_apart order t ts (ground arith))

  pub HasUniqueIds-IsTold :
      (order : TransactionOrder) (ts : List PointTransaction)
      → HasUniqueIds ts
      → IsTold (comes_before id_lt order) ts
  HasUniqueIds-IsTold order [] h = tt
  HasUniqueIds-IsTold order (t ∷ ts) h =
      (told_apart order t ts h.0, HasUniqueIds-IsTold order ts h.1)

exists-select :
    (p q : PointTransaction → Bool) (ts : List PointTransaction)
    → exists p ts ≡ false
    → exists p (select q ts) ≡ false
exists-select p q [] h = h
exists-select p q (t ∷ ts) h = ground (arith, exists-select p q ts)

pub HasUniqueIds-select :
    (q : PointTransaction → Bool) (ts : List PointTransaction)
    → HasUniqueIds ts
    → HasUniqueIds (select q ts)
HasUniqueIds-select q [] h = tt
HasUniqueIds-select q (t ∷ ts) h = elim (Bool-cases (q t)) [
  | inl e ↦ rw e (exists-select (λ x. x.id == t.id) q ts h.0, HasUniqueIds-select q ts h.1)
  | inr e ↦ rw e (HasUniqueIds-select q ts h.1)
]
