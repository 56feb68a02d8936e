-- ===== src/Ledger/Append.antt =====
-- The ways in which `appendEntry` ends (packages/api/src/modules/ledger/ledger.service.ts).
use mini_rewards_integration.Prelude.{
  ℕ, String, true, false, ◌≡◌, refl, ◌⊎◌, inl, inr, Option, none, some, List, [], ◌∷◌, ◌==◌, ◌&&◌,
  ◌||◌, arith, filter_eq, Bool-cases, Option-cases, find?, find-some, find-none, exists-find,
  exists, update_where, if◌then◌else◌,
}
use mini_rewards_integration.Prelude.Int.{ℤ, ◌+ℤ◌, abs, fits_int4}
use mini_rewards_integration.Database.Schema.{PointTransaction, Db}
use mini_rewards_integration.Database.Exec.{
  Violation, foreign_key_violation, out_of_range, insufficient_points, database, Result, ok, err,
  balance, Session, acquire, proceed,
}
use mini_rewards_integration.Database.Constraints.{entry_check, entry_keys, same_event}
use mini_rewards_integration.Ledger.{
  AppendEntryInput, AppendEntryResult, proposed, insert_entry, original_entry, store_balance,
  overdraws, settle_entry, append_entry,
}
use mini_rewards_integration.Ledger.Balances.{
  cached, has_row, is_user, materialised, lock_balance_lem,
}

-- The session once the balance row is there and locked.
abbrev pub locked : ℕ → String → Session → Session
locked now u s = record { db = materialised now u s.db; locks = acquire (balance u) s.locks }

-- The session with one more ledger row.
abbrev pub recorded : PointTransaction → Session → Session
recorded row s = record s {
  db = record s.db { point_transactions = row ∷ s.db.point_transactions };
}

-- The session with one user's cached balance written.
abbrev pub moved : ℕ → String → ℤ → Session → Session
moved now u x s = record s {
  db = record s.db {
    user_balances =
        update_where (λ b. b.user_id == u) (λ b. record b { balance = x; updated_at = now })
          s.db.user_balances;
  };
}

-- The entry that already holds an event key, if any.
abbrev pub holder : String → Option String → Db → Option PointTransaction
holder source event db = find? (same_event source event) db.point_transactions

-- The claim of a row: refused, in conflict with an earlier entry, or written.
pub insert_entry-cases :
    (row : PointTransaction) (s : Session)
    → ((v : Violation) × (insert_entry row s ≡ (err (database v), s)))
      ⊎ (((t : PointTransaction) × (holder row.source row.external_event_id s.db ≡ some t)
            × (entry_check row ≡ none)
            × (insert_entry row s ≡ (ok none, s)))
          ⊎ ((holder row.source row.external_event_id s.db ≡ none)
              × (entry_check row ≡ none)
              × (entry_keys row s.db ≡ none)
              × (insert_entry row s ≡ (ok (some row.id), recorded row s))))
unfolding insert_entry
insert_entry-cases row s = elim (Option-cases (entry_check row)) [
  | inr (v, bad) ↦ inl (v, ground arith)
  | inl fine ↦
      elim (Bool-cases
        (exists (same_event row.source row.external_event_id) s.db.point_transactions)) [
          | inl taken ↦
              let (t, found) =
                find-some (same_event row.source row.external_event_id) s.db.point_transactions
                  taken in
              inr (inl (t, found, fine, ground arith))
          | inr free ↦ elim (Option-cases (entry_keys row s.db)) [
            | inr (v, bad) ↦ inl (v, ground arith)
            | inl good ↦ inr (
                inr (
                  find-none (same_event row.source row.external_event_id) s.db.point_transactions
                      free,
                  fine,
                  good,
                  ground arith,
                ))
          ]
        ]
]

-- An entry with no key conflicts with nothing.
pub holder-none :
    (source : String) (ts : List PointTransaction) → find? (same_event source none) ts ≡ none
holder-none source [] = refl
holder-none source (x ∷ ts) = ground (arith, holder-none source ts)

-- A well-formed row whose event is on record is never written.
pub insert_entry-taken :
    (row : PointTransaction) (s : Session) (t : PointTransaction)
    → entry_check row ≡ none
    → holder row.source row.external_event_id s.db ≡ some t
    → insert_entry row s ≡ (ok none, s)
unfolding insert_entry
insert_entry-taken row s t fine found =
    ground
      (arith, exists-find (same_event row.source row.external_event_id) s.db.point_transactions t)

-- What the recovery query finds is the entry that the insert ran into.
find-original :
    (source : String) (event : Option String) (ts : List PointTransaction) (t : PointTransaction)
    → find? (same_event source event) ts ≡ some t
    → find? (λ x. x.source == source && filter_eq x.external_event_id event) ts ≡ some t
find-original source event [] t h = h
find-original source none (x ∷ ts) t h = cc (holder-none source (x ∷ ts))
find-original source (some k) (x ∷ ts) t h = ground (arith, find-original source (some k) ts t)

pub settle_entry-duplicate :
    (now : ℕ) (input : AppendEntryInput) (b : ℤ) (s : Session) (t : PointTransaction)
    → holder input.source input.external_event_id s.db ≡ some t
    → settle_entry now input b none s
      ≡ (ok (record { transaction_id = t.id; balance_after = b; duplicate = true }), s)
unfolding settle_entry original_entry
settle_entry-duplicate now input b s t h =
    rw (
      find-original input.source input.external_event_id s.db.point_transactions t h,
      original_entry,
    )

pub settle_entry-new :
    (now : ℕ) (input : AppendEntryInput) (b : ℤ) (id : String) (s : Session)
    → settle_entry now input b (some id) s ≡ (
        if overdraws input (b +ℤ input.delta)
        then (err (insufficient_points input.user_id b (abs input.delta)), s)
        else if fits_int4 (b +ℤ input.delta)
        then (
          ok (record { transaction_id = id; balance_after = b +ℤ input.delta; duplicate = false }),
          moved now input.user_id (b +ℤ input.delta) s,
        )
        else (err (database out_of_range), s))
unfolding settle_entry store_balance
settle_entry-new now input b id s = elim (Bool-cases (overdraws input (b +ℤ input.delta))) [
  | inl over ↦ rw over
  | inr enough ↦
      rw enough (elim (Bool-cases (fits_int4 (b +ℤ input.delta))) [
        | inl fits ↦ rw fits
        | inr wide ↦ rw wide
      ])
]

-- `r` is how `append_entry transaction_id now input s` ends, with what held at the start.
pub data Appended (transaction_id : String) (now : ℕ) (input : AppendEntryInput) (s : Session)
    (r : Result AppendEntryResult × Session) : Type 0 where
  -- the database refuses the user, the row or the new balance
  refused : (v : Violation) → r.0 ≡ err (database v) → Appended transaction_id now input s r
  -- the key is taken: the earlier entry is named, and nothing moves
  duplicate :
      (t : PointTransaction)
      → holder input.source input.external_event_id s.db ≡ some t
      → entry_check (proposed transaction_id now input) ≡ none
      → r ≡ (
        ok (record {
          transaction_id = t.id;
          balance_after = cached input.user_id s.db.user_balances;
          duplicate = true;
        }),
        locked now input.user_id s,
      )
      → Appended transaction_id now input s r
  -- the debit is not covered: the throw comes after the row is written
  overdrawn :
      holder input.source input.external_event_id s.db ≡ none
      → overdraws input (cached input.user_id s.db.user_balances +ℤ input.delta) ≡ true
      → r ≡ (
        err (
            insufficient_points input.user_id
              (cached input.user_id s.db.user_balances)
              (abs input.delta)),
        recorded (proposed transaction_id now input) (locked now input.user_id s),
      )
      → Appended transaction_id now input s r
  -- the row is written and the balance moves with it
  credited :
      holder input.source input.external_event_id s.db ≡ none
      → entry_check (proposed transaction_id now input) ≡ none
      → entry_keys (proposed transaction_id now input) s.db ≡ none
      → overdraws input (cached input.user_id s.db.user_balances +ℤ input.delta) ≡ false
      → fits_int4 (cached input.user_id s.db.user_balances +ℤ input.delta) ≡ true
      → r ≡ (
        ok (record {
          transaction_id = transaction_id;
          balance_after = cached input.user_id s.db.user_balances +ℤ input.delta;
          duplicate = false;
        }),
        moved now input.user_id
            (cached input.user_id s.db.user_balances +ℤ input.delta)
            (recorded (proposed transaction_id now input) (locked now input.user_id s)),
      )
      → Appended transaction_id now input s r

-- Materialising a balance touches neither the ledger nor what its keys refer to.
pub ledger-materialised :
    (now : ℕ) (u : String) (db : Db)
    → (materialised now u db).point_transactions ≡ db.point_transactions
ledger-materialised now u db = ground arith

pub entry_keys-materialised :
    (now : ℕ) (u : String) (row : PointTransaction) (db : Db)
    → entry_keys row (materialised now u db) ≡ entry_keys row db
unfolding entry_keys
entry_keys-materialised now u row db = elim (Bool-cases (has_row u db)) [
  | inl old ↦ rw old
  | inr new ↦ rw new
]

claim-Appended :
    (transaction_id : String) (now : ℕ) (input : AppendEntryInput) (s : Session)
    → let b = cached input.user_id s.db.user_balances in
      let row = proposed transaction_id now input in
      Appended transaction_id now input s
        (proceed (settle_entry now input b) (insert_entry row (locked now input.user_id s)))
claim-Appended transaction_id now input s =
    let row = proposed transaction_id now input in
    let after = cached input.user_id s.db.user_balances +ℤ input.delta in
    elim (insert_entry-cases row (locked now input.user_id s)) [
      | inl (v, e) ↦ refused v (rw e)
      | inr (inl (t, found, check, e)) ↦
          duplicate t (rw ledger-materialised at found) check
            (rw e (settle_entry-duplicate now input _ (locked now input.user_id s) t found))
      | inr (inr (free, check, keys, e)) ↦
          rw (e, settle_entry-new)
            (elim (Bool-cases (overdraws input after)) [
              | inl over ↦ overdrawn (rw ledger-materialised at free) over (rw over)
              | inr enough ↦ elim (Bool-cases (fits_int4 after)) [
                | inr wide ↦ refused out_of_range (rw (enough, wide))
                | inl fits ↦
                    credited (rw ledger-materialised at free) check
                      (rw entry_keys-materialised at keys) enough fits (rw (enough, fits))
              ]
            ])
    ]

-- Every call ends in one of these four ways: in particular no throw but the typed one and the
-- database's own is reached.
pub append_entry-Appended :
    (transaction_id : String) (now : ℕ) (input : AppendEntryInput) (s : Session)
    → Appended transaction_id now input s (append_entry transaction_id now input s)
unfolding append_entry
append_entry-Appended transaction_id now input s =
    elim (Bool-cases (has_row input.user_id s.db || is_user input.user_id s.db)) [
      | inr unknown ↦ refused foreign_key_violation (rw lock_balance_lem (rw unknown))
      | inl known ↦ rw lock_balance_lem (rw known (claim-Appended transaction_id now input s))
    ]
