-- ===== src/Http/Limits.antt =====
-- The size of a page of history (packages/api/src/modules/user/user.routes.ts).
use mini_rewards_integration.Prelude.{
  ℕ, ◌≤◌, String, Bool, ◌≡◌, refl, subst, arith, leb, length, Option, none, some, Bool-cases, inl,
  inr,
}
use mini_rewards_integration.Prelude.Int.{ℤ, pos, negsuc}
use mini_rewards_integration.Database.Json.{Json, Fields}
use mini_rewards_integration.Database.Schema.{Db}
use mini_rewards_integration.Database.Exec.{Result, ok, err, proceed, ◌>>=◌}
use mini_rewards_integration.Ledger.History.{
  TransactionPage, Codec, ListTransactionsInput, list_transactions,
}
use mini_rewards_integration.Ledger.History.Whole.{list_transactions_size}
use mini_rewards_integration.Webhook.Event.{lookup}
use mini_rewards_integration.Auth.{AuthPlatform, SessionUser}
use mini_rewards_integration.Http.{answer, Parsed, parsed, issues, Zod, both, parsed_map, in_range}
use mini_rewards_integration.Http.Guards.{
  resolve_user, require_user, acting_user, unless_sent, guarded,
}
use mini_rewards_integration.Http.Users.{
  TransactionQuery, at_path, limit_value, transaction_query_schema, history_parsed, history_route,
}

both_parsed :
    {A B : Type 0} (p : Parsed A) (q : Parsed B) {x : A × B}
    → both p q ≡ parsed x
    → (p ≡ parsed x.0) × (q ≡ parsed x.1)
both_parsed (parsed a) (parsed b) h = (cc, cc)
both_parsed (parsed a) (issues ns) h = cc
both_parsed (issues ms) (parsed b) h = cc
both_parsed (issues ms) (issues ns) h = cc

map_parsed :
    {A B : Type 0} (f : A → B) (p : Parsed A) {y : B}
    → parsed_map f p ≡ parsed y
    → (x : A) × (p ≡ parsed x) × (f x ≡ y)
map_parsed f (parsed a) h = (a, refl, cc)
map_parsed f (issues ms) h = cc

at_path_parsed :
    {A : Type 0} (name : String) (p : Parsed A) {x : A} → at_path name p ≡ parsed x → p ≡ parsed x
at_path_parsed name (parsed a) h = h
at_path_parsed name (issues ms) h = cc

range_lem :
    (zod : Zod) (name : String) (value : Option Json) (low high : ℕ) (z : Option ℤ) {n : ℕ}
    → in_range zod name value low high z ≡ parsed n
    → (low ≤ n) × (n ≤ high)
range_lem zod name value low high none h = cc
range_lem zod name value low high (some (negsuc k)) h = cc
range_lem zod name value low high (some (pos k)) {n} h = elim (Bool-cases (leb low k)) [
  | inr under ↦ cc (rw under at h)
  | inl above ↦ elim (Bool-cases (leb k high)) [
    | inr over ↦ cc (rw (above, over) at h)
    | inl within ↦
        let same : k ≡ n = cc (rw (above, within) at h) in
        subst (λ m. (low ≤ m) × (m ≤ high)) same (ground (arith, above), ground (arith, within))
  ]
]

limit_lem : (zod : Zod) (value : Option Json) {n : ℕ} → limit_value zod value ≡ parsed n → n ≤ 100
limit_lem zod none {n} h =
    let default : ℕ = 20 in let same : default ≡ n = cc in omega (arith, same)
limit_lem zod (some value) h =
    (range_lem zod "limit" (some value) 1 100 (zod.coerce_int (some value)) h).1

query_limit :
    (zod : Zod) (fields : Fields) {query : TransactionQuery}
    → transaction_query_schema zod fields ≡ parsed query
    → query.limit ≤ 100
unfolding transaction_query_schema
query_limit zod fields {query} h =
    let (x, members, same) = map_parsed _ _ h in
    let (most, order) = both_parsed _ _ members in
    let (some_of, type) = both_parsed _ _ most in
    let (cursor, limit) = both_parsed _ _ some_of in
    let small = limit_lem zod (lookup "limit" fields) (at_path_parsed "limit" _ limit) in
    subst (λ q. q.limit ≤ 100) same small

module _ (id_lt : String → String → Bool) (codec : Codec) where
  parsed_lem :
      (user : SessionUser) (query : Parsed TransactionQuery) (db : Db) {code : ℕ}
      {page : TransactionPage} {after : Db}
      → ((q : TransactionQuery) → query ≡ parsed q → q.limit ≤ 100)
      → history_parsed id_lt codec user query db ≡ (ok (answer code page), after)
      → length page.items ≤ 100
  unfolding history_parsed
  parsed_lem user (issues messages) db small h = cc
  parsed_lem user (parsed q) db {page} small h =
      let input : ListTransactionsInput = record {
        user_id = user.id;
        cursor = q.cursor;
        limit = q.limit;
        type = q.type;
        order = some q.order;
      } in
      let shown : list_transactions id_lt codec input db ≡ page = cc in
      let few = list_transactions_size id_lt codec input db in
      let small' = small q refl in
      subst (λ p. length p.items ≤ 100) shown (omega (arith, few, small'))

  routed_lem :
      (zod : Zod) (fields : Fields) (r : Result (Option SessionUser) × Db) {code : ℕ}
      {page : TransactionPage} {after : Db}
      → proceed
          (λ caller. unless_sent (require_user caller) (do
            user ← acting_user caller
            history_parsed id_lt codec user (transaction_query_schema zod fields)))
          r
        ≡ (ok (answer code page), after)
      → length page.items ≤ 100
  unfolding require_user acting_user
  routed_lem zod fields (ok (some u), db) h =
      parsed_lem u (transaction_query_schema zod fields) db (λ q e. query_limit zod fields e) h
  routed_lem zod fields (ok none, db) h = cc
  routed_lem zod fields (err e, db) h = cc

  -- Whatever a client asks for, a page of history that it is answered holds at most a hundred entries.
  pub history_route_bounded :
      (platform : AuthPlatform) (zod : Zod) (now : ℕ) (cookie : Option String) (fields : Fields)
      (db : Db) {code : ℕ} {page : TransactionPage} {after : Db}
      → history_route id_lt codec platform zod now cookie fields db ≡ (ok (answer code page), after)
      → length page.items ≤ 100
  unfolding history_route guarded
  history_route_bounded platform zod now cookie fields db h =
      routed_lem zod fields (resolve_user platform now cookie db) h
