-- ===== src/Database/Keeps.antt =====
-- Properties of the tables that a program of a transaction keeps, one rule for each way to build one.
use mini_rewards_integration.Prelude.{Bool, true, false, [], if◌then◌else◌}
use mini_rewards_integration.Database.Schema.{Db}
use mini_rewards_integration.Database.Exec.{
  Error, Result, ok, err, Session, Action, Client, pure, raise, gets, proceed, ◌>>=◌, query,
  transaction,
}
use mini_rewards_integration.Database.Ends.{Ends, Ends-proceed, Ends-map, transaction-keeps}

pub record Keeps {A : Type 0} (P : Db → Type 0) (m : Action A) : Type 0 where
  pub at : (s : Session) → P s.db → Ends (λ a s'. P s'.db) (m s)

module _ {A : Type 0} {P : Db → Type 0} where
  pub Keeps-pure : (a : A) → Keeps P (pure {S = Session} a)
  Keeps-pure a = record { at = λ s h. h }

  pub Keeps-raise : (e : Error) → Keeps P (raise {S = Session} {A = A} e)
  Keeps-raise e = record { at = λ s h. tt }

  pub Keeps-query : (f : Db → A) → Keeps P (query f)
  Keeps-query f = record { at = λ s h. h }

  pub Keeps-if : (b : Bool) (m n : Action A) → Keeps P m → Keeps P n → Keeps P (if b then m else n)
  Keeps-if true m n km kn = km
  Keeps-if false m n km kn = kn

  pub Keeps-transaction : (m : Action A) (db : Db) → Keeps P m → P db → P (transaction m db).1
  Keeps-transaction m db km h =
      transaction-keeps P m db h (km.at (record { db = db; locks = [] }) h)

module _ {A B : Type 0} {P : Db → Type 0} where
  pub Keeps-bind :
      (m : Action A) (f : A → Action B) → Keeps P m → ((a : A) → Keeps P (f a)) → Keeps P (m >>= f)
  Keeps-bind m f km kf = record {
    at = λ s h.
        Ends-proceed (λ b s'. P s'.db) f (m s)
          (Ends-map (λ a s'. Ends (λ b s''. P s''.db) (f a s')) (m s) (km.at s h)
            (λ a s' h'. (kf a).at s' h'));
  }

pub ruleset keeps_rules = (Keeps-pure, Keeps-raise, Keeps-query, Keeps-if, Keeps-bind)

-- The same of a program outside any transaction, whether it returns or throws.
pub record Preserves {A : Type 0} (P : Db → Type 0) (m : Client A) : Type 0 where
  pub at : (db : Db) → P db → P (m db).1

module _ {A : Type 0} {P : Db → Type 0} where
  pub Preserves-transaction : (m : Action A) → Keeps P m → Preserves P (transaction m)
  Preserves-transaction m km = record { at = λ db. Keeps-transaction m db km }

  pub Preserves-pure : (a : A) → Preserves P (pure {S = Db} a)
  Preserves-pure a = record { at = λ db h. h }

  pub Preserves-raise : (e : Error) → Preserves P (raise {S = Db} {A = A} e)
  Preserves-raise e = record { at = λ db h. h }

  pub Preserves-gets : (f : Db → A) → Preserves P (gets f)
  Preserves-gets f = record { at = λ db h. h }

module _ {A B : Type 0} {P : Db → Type 0} (f : A → Client B)
    (kf : (a : A) → Preserves P (f a)) where
  proceed-Preserves : (r : Result A × Db) → P r.1 → P (proceed f r).1
  proceed-Preserves (ok a, db) h = (kf a).at db h
  proceed-Preserves (err e, db) h = h

  pub Preserves-bind : (m : Client A) → Preserves P m → Preserves P (m >>= f)
  Preserves-bind m km = record { at = λ db h. proceed-Preserves (m db) (km.at db h) }

pub Preserves-if :
    {A : Type 0} {P : Db → Type 0} (b : Bool) (m n : Client A)
    → Preserves P m
    → Preserves P n
    → Preserves P (if b then m else n)
Preserves-if true m n km kn = km
Preserves-if false m n km kn = kn

pub ruleset preserves_rules = (
  Preserves-transaction, Preserves-pure, Preserves-raise, Preserves-gets, Preserves-bind,
  Preserves-if,
)
