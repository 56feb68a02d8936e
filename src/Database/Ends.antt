-- ===== src/Database/Ends.antt =====
-- What holds when a program of a transaction ends without a throw, and what the transaction makes
-- of it: after a throw the tables are those before it.
use mini_rewards_integration.Prelude.{◌≡◌, []}
use mini_rewards_integration.Database.Schema.{Db}
use mini_rewards_integration.Database.Exec.{
  Error, Result, ok, err, Exec, Session, Action, proceed, ◌>>=◌, conclude, transaction,
}

-- `Q` holds of the value and the state, unless the program threw.
abbrev pub Ends : {S A : Type 0} → (A → S → Type 0) → Result A × S → Type 0
Ends Q (ok a, s) = Q a s
Ends Q (err e, s) = Unit

module _ {S A : Type 0} (Q : A → S → Type 0) where
  pub Ends-err : (r : Result A × S) {e : Error} → r.0 ≡ err e → Ends Q r
  Ends-err (ok a, s) h = cc
  Ends-err (err e, s) h = tt

  pub Ends-ok : (r : Result A × S) {a : A} → Ends Q r → r.0 ≡ ok a → Q a r.1
  Ends-ok (ok a, s) {a = b} q h = let e : a ≡ b = cc in rw e at q
  Ends-ok (err e, s) q h = cc

  pub Ends-eq : (r : Result A × S) {a : A} {s : S} → Ends Q r → r ≡ (ok a, s) → Q a s
  Ends-eq r q h = rw h at q

  pub Ends-proceed :
      {B : Type 0} (f : B → Exec S A) (r : Result B × S)
      → Ends (λ b s. Ends Q (f b s)) r
      → Ends Q (proceed f r)
  Ends-proceed f (ok b, s) h = h
  Ends-proceed f (err e, s) h = tt

  pub Ends-map :
      {R : A → S → Type 0} (r : Result A × S)
      → Ends R r
      → ((a : A) (s : S) → R a s → Q a s)
      → Ends Q r
  Ends-map (ok a, s) h f = f a s h
  Ends-map (err e, s) h f = tt

-- One step of a `do` block: what holds after `m` is what the rest starts from.
pub Ends-bind :
    {S A B : Type 0} {R : A → S → Type 0} (Q : B → S → Type 0) (m : Exec S A) (f : A → Exec S B)
    (s : S)
    → Ends R (m s)
    → ((a : A) (s' : S) → R a s' → Ends Q (f a s'))
    → Ends Q ((m >>= f) s)
Ends-bind Q m f s h k = Ends-proceed Q f (m s) (Ends-map (λ a s'. Ends Q (f a s')) (m s) h k)

module _ {A : Type 0} (P : Db → Type 0) where
  conclude-keeps :
      (before : Db) (r : Result A × Session)
      → P before
      → Ends (λ a s. P s.db) r
      → P (conclude before r).1
  conclude-keeps before (ok a, s) h after = after
  conclude-keeps before (err e, s) h after = h

  -- What its program keeps on success, a transaction keeps however it ends.
  pub transaction-keeps :
      (m : Action A) (db : Db)
      → P db
      → Ends (λ a s. P s.db) (m (record { db = db; locks = [] }))
      → P (transaction m db).1
  transaction-keeps m db = conclude-keeps db (m (record { db = db; locks = [] }))

module _ {A : Type 0} (Q : A → Db → Type 0) where
  conclude-ok :
      (before : Db) (r : Result A × Session) {a : A} {after : Db}
      → Ends (λ b s. Q b s.db) r
      → conclude before r ≡ (ok a, after)
      → Q a after
  conclude-ok before (ok b, s) {a = a} {after = after} q h =
      let p : b ≡ a = cc in let e : s.db ≡ after = cc in rw (p, e) at q
  conclude-ok before (err e, s) q h = cc

  -- What a transaction committed meets its program's postcondition.
  pub transaction-ok :
      (m : Action A) (db : Db) {a : A} {after : Db}
      → Ends (λ b s. Q b s.db) (m (record { db = db; locks = [] }))
      → transaction m db ≡ (ok a, after)
      → Q a after
  transaction-ok m db = conclude-ok db (m (record { db = db; locks = [] }))

  conclude-Ends :
      (before : Db) (r : Result A × Session) → Ends (λ b s. Q b s.db) r → Ends Q (conclude before r)
  conclude-Ends before (ok b, s) q = q
  conclude-Ends before (err e, s) q = tt

  pub transaction-Ends :
      (m : Action A) (db : Db)
      → Ends (λ b s. Q b s.db) (m (record { db = db; locks = [] }))
      → Ends Q (transaction m db)
  transaction-Ends m db = conclude-Ends db (m (record { db = db; locks = [] }))
