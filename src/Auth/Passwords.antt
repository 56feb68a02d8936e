-- ===== src/Auth/Passwords.antt =====
-- packages/api/src/modules/auth/auth.service.ts: passwords. scrypt, hex and the reading of numbers are
-- Node's, and arguments here; a buffer is the list of its bytes.
use Prim.Native.Char.{Char, code}
use Prim.Native.String.{◌++◌}
use mini_rewards_integration.Prelude.{
  ℕ, String, Bool, false, not, ◌&&◌, Option, none, some, List, [], ◌∷◌, ◌==◌, eqb, length,
  if◌then◌else◌,
}

-- A JavaScript number, with none for one that is not a natural.
pub record ScryptOptions : Type 0 where
  pub cost : Option ℕ
  pub block_size : Option ℕ
  pub parallelism : Option ℕ

pub record PasswordPlatform : Type 0 where
  -- `scrypt(password, salt, keyLength, options)`, with none for an error or a throw
  pub scrypt : String → List ℕ → ℕ → ScryptOptions → Option (List ℕ)
  -- `buffer.toString('hex')` and `Buffer.from(text, 'hex')`
  pub to_hex : List ℕ → String
  pub from_hex : String → List ℕ
  -- `String(n)` and `Number(text)`
  pub show_number : ℕ → String
  pub number : String → Option ℕ
  -- `timingSafeEqual` on buffers of one length
  pub timing_safe_equal : List ℕ → List ℕ → Bool

abbrev pub scrypt_cost : ℕ
scrypt_cost = 16384

abbrev pub scrypt_block_size : ℕ
scrypt_block_size = 8

abbrev pub scrypt_parallelism : ℕ
scrypt_parallelism = 1

abbrev pub key_length : ℕ
key_length = 64

abbrev pub join_parts : List String → String
join_parts [] = ""
join_parts (x ∷ []) = x
join_parts (x ∷ (y ∷ ys)) = x ++ ("$" ++ join_parts (y ∷ ys))

abbrev pub is_dollar : Char → Bool
is_dollar c = eqb (code c) b'$'

abbrev pub prefix_first : Char → List String → List String
prefix_first c [] = String.◌∷◌ c "" ∷ []
prefix_first c (x ∷ xs) = String.◌∷◌ c x ∷ xs

-- `stored.split('$')`
unfoldable pub split_parts : String → List String
split_parts String.[] = "" ∷ []
split_parts (String.◌∷◌ c s) =
    let rest = split_parts s in if is_dollar c then "" ∷ rest else prefix_first c rest

module _ (platform : PasswordPlatform) where
  abbrev pub own_options : ScryptOptions
  own_options = record {
    cost = some scrypt_cost;
    block_size = some scrypt_block_size;
    parallelism = some scrypt_parallelism;
  }

  abbrev pub stored_form : List ℕ → Option (List ℕ) → Option String
  stored_form salt none = none
  stored_form salt (some derived) = some (
      join_parts (
        "scrypt"
        ∷ platform.show_number scrypt_cost
        ∷ platform.show_number scrypt_block_size
        ∷ platform.show_number scrypt_parallelism
        ∷ platform.to_hex salt
        ∷ platform.to_hex derived
        ∷ []))

  -- `salt` is what `randomBytes(16)` gives.
  unfoldable pub hash_password : List ℕ → String → Option String
  hash_password salt password =
      stored_form salt (platform.scrypt password salt key_length own_options)

  abbrev pub same_key : List ℕ → Option (List ℕ) → Option Bool
  same_key expected none = none
  same_key expected (some derived) =
      some (eqb (length derived) (length expected) && platform.timing_safe_equal derived expected)

  -- Past the guard: the key is derived again with the parameters that the hash carries.
  unfoldable pub verify_key : String → String → String → String → String → String → Option Bool
  verify_key password cost block_size parallelism salt_hex hash_hex =
      let expected = platform.from_hex hash_hex in
      same_key expected (
        platform.scrypt password (platform.from_hex salt_hex) (length expected) (record {
          cost = platform.number cost;
          block_size = platform.number block_size;
          parallelism = platform.number parallelism;
        }))

  abbrev pub filled : String → Bool
  filled s = not (s == "")

  unfoldable pub verify_parts : String → List String → Option Bool
  verify_parts password
        (scheme ∷ (cost ∷ (block_size ∷ (parallelism ∷ (salt_hex ∷ (hash_hex ∷ more)))))) =
      if (scheme == "scrypt")
        && (filled cost
            && (filled block_size && (filled parallelism && (filled salt_hex && filled hash_hex))))
      then verify_key password cost block_size parallelism salt_hex hash_hex
      else some false
  verify_parts password _ = some false

  -- None where scrypt refuses the parameters: the promise rejects.
  unfoldable pub verify_password : String → String → Option Bool
  verify_password password stored = verify_parts password (split_parts stored)
