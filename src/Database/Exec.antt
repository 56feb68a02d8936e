-- ===== src/Database/Exec.antt =====
-- Statements inside a transaction, and the transaction around them (Prisma's `$transaction`). A
-- statement that throws leaves what was written before it; only the transaction takes it back.
use mini_rewards_integration.Prelude.{
  String, ℕ, Bool, false, List, [], ◌∷◌, ◌==◌, exists, if◌then◌else◌,
}
use mini_rewards_integration.Prelude.Int.{ℤ}
use mini_rewards_integration.Database.Schema.{Db}

-- What the database itself refuses.
pub data Violation : Type 0 where
  unique_violation check_violation foreign_key_violation out_of_range record_not_found
        invalid_text :
      Violation

pub data Unavailable : Type 0 where
  out_of_stock reward_inactive : Unavailable

-- What an operation of the program throws.
pub data Error : Type 0 where
  insufficient_points : String → ℤ → ℕ → Error
  ledger_entry_not_found : String → Error
  reward_not_found : String → Error
  reward_unavailable : Unavailable → String → Error
  sku_taken : String → Error
  email_already_registered : Error
  unexpected : String → Error
  database : Violation → Error

pub data Result {ℓ} (A : Type ℓ) : Type ℓ where
  ok : A → Result A
  err : Error → Result A

-- The rows that a transaction may lock exclusively.
pub data Lock : Type 0 where
  balance reward redemption delivery : String → Lock

abbrev pub same_lock : Lock → Lock → Bool
same_lock (balance a) (balance b) = a == b
same_lock (reward a) (reward b) = a == b
same_lock (redemption a) (redemption b) = a == b
same_lock (delivery a) (delivery b) = a == b
same_lock _ _ = false

-- An open transaction: its view of the tables, and the row locks that it holds, the newest first.
pub record Session : Type 0 where
  pub db : Db
  pub locks : List Lock

-- A lock that the transaction already holds is not taken again.
abbrev pub acquire : Lock → List Lock → List Lock
acquire l locks = if exists (same_lock l) locks then locks else l ∷ locks

abbrev pub Exec : Type 0 → Type 0 → Type 0
Exec S A = S → Result A × S

abbrev pub Action : Type 0 → Type 0
Action A = Exec Session A

-- A program outside any transaction: it sees committed data only.
abbrev pub Client : Type 0 → Type 0
Client A = Exec Db A

module _ {S A : Type 0} where
  abbrev pub pure : A → Exec S A
  pure a s = (ok a, s)

  abbrev pub raise : Error → Exec S A
  raise e s = (err e, s)

  abbrev pub gets : (S → A) → Exec S A
  gets f s = (ok (f s), s)

-- A throw skips the rest; what was written before it stays.
abbrev pub proceed : {S A B : Type 0} → (A → Exec S B) → Result A × S → Result B × S
proceed f (ok a, s) = f a s
proceed f (err e, s) = (err e, s)

infixl 5 ◌>>=◌ ◌>>◌
abbrev pub ◌>>=◌ : {S A B : Type 0} → Exec S A → (A → Exec S B) → Exec S B
◌>>=◌ m f s = proceed f (m s)

abbrev pub ◌>>◌ : {S A B : Type 0} → Exec S A → Exec S B → Exec S B
m >> k = m >>= λ _. k

-- A read of the tables.
abbrev pub query : {A : Type 0} → (Db → A) → Action A
query f s = (ok (f s.db), s)

-- A write that no constraint can refuse.
abbrev pub execute : (Db → Db) → Action Unit
execute f s = (ok tt, record s { db = f s.db })

abbrev pub take_lock : Lock → Action Unit
take_lock l s = (ok tt, record s { locks = acquire l s.locks })

-- How a transaction ends: it commits what its program wrote, or nothing if the program threw.
abbrev pub conclude : {A : Type 0} → Db → Result A × Session → Result A × Db
conclude before (ok a, s) = (ok a, s.db)
conclude before (err e, s) = (err e, before)

-- `client.$transaction(m)`; one statement sent by the client alone is a transaction too.
abbrev pub transaction : {A : Type 0} → Action A → Client A
transaction m db = conclude db (m (record { db = db; locks = [] }))
