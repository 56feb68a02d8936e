-- ===== src/Tests/Auth.antt =====
-- Accounts, passwords and sessions at a platform whose hex and decimal texts count in dots.
use Prim.Native.Char.{code}
use Prim.Native.String.{◌++◌}
use mini_rewards_integration.Prelude.{
  ℕ, zero, suc, String, Bool, true, false, ◌≡◌, ◌≢◌, ◌↔◌, ◌&&◌, ◌==◌, refl, ap, subst, ◌+◌,
  or_default, Option, none, some, List, [], ◌∷◌, length, arith, ltb, eqb, if◌then◌else◌,
}
use mini_rewards_integration.Prelude.Texts.{cons-present}
use mini_rewards_integration.Database.Schema.{user, Db}
use mini_rewards_integration.Database.Exec.{ok, err, email_already_registered, transaction}
use mini_rewards_integration.Auth.Passwords.{
  PasswordPlatform, join_parts, hash_password, verify_password,
}
use mini_rewards_integration.Auth.Parts.{has_dollar}
use mini_rewards_integration.Auth.Keys.{IsPart, IsPasswordPlatform}
use mini_rewards_integration.Auth.Keys.{hash_password-verify_password, verify_password_no_key}
use mini_rewards_integration.Auth.Sessions.{without, create_session_lifetime}
use mini_rewards_integration.Auth.Accounts.{
  register-authenticate, register-authenticate_other, register_once,
}
use mini_rewards_integration.Auth.{
  AuthPlatform, session_ttl_ms, hash_token, session_user, insert_session, create_session,
  resolve_row, resolve_found, resolve_session, delete_sessions, destroy_session, SessionUser,
  RegisterInput, normalise_email, insert_user, RegisterDraws, register_unless_taken, register,
  authenticate,
}
use mini_rewards_integration.Tests.{ada, empty_shop}

-- Each number as so many dots, and a stop.
abbrev dots : ℕ → String → String
dots zero rest = String.◌∷◌ ";" rest
dots (suc n) rest = String.◌∷◌ "." (dots n rest)

abbrev written : List ℕ → String
written [] = ""
written (n ∷ ns) = dots n (written ns)

abbrev bump : List ℕ → List ℕ
bump [] = []
bump (n ∷ ns) = suc n ∷ ns

abbrev read_back : String → List ℕ
read_back String.[] = []
read_back (String.◌∷◌ c s) =
    let rest = read_back s in if eqb (code c) b';' then 0 ∷ rest else bump rest

abbrev head? : List ℕ → Option ℕ
head? [] = none
head? (n ∷ ns) = some n

abbrev pub size : String → ℕ
size String.[] = 0
size (String.◌∷◌ c s) = suc (size s)

abbrev copies : ℕ → ℕ → List ℕ
copies zero x = []
copies (suc n) x = x ∷ copies n x

abbrev equal : List ℕ → List ℕ → Bool
equal [] [] = true
equal (x ∷ xs) (y ∷ ys) = eqb x y && equal xs ys
equal _ _ = false

-- A poor key: the size of the password, over and over.
abbrev passwords : PasswordPlatform
passwords = record {
  scrypt = λ password salt n options. some (copies n (size password));
  to_hex = written;
  from_hex = read_back;
  show_number = λ n. dots n "";
  number = λ s. head? (read_back s);
  timing_safe_equal = equal;
}

dots_plain : (n : ℕ) (rest : String) → has_dollar rest ≡ false → has_dollar (dots n rest) ≡ false
unfolding has_dollar
dots_plain zero rest h = h
dots_plain (suc n) rest h = dots_plain n rest h

written_plain : (ns : List ℕ) → has_dollar (written ns) ≡ false
unfolding has_dollar
written_plain [] = refl
written_plain (n ∷ ns) = dots_plain n (written ns) (written_plain ns)

dots_present : (n : ℕ) (rest : String) → (dots n rest == "") ≡ false
dots_present zero rest = cons-present ";" rest
dots_present (suc n) rest = cons-present "." (dots n rest)

read_back-dots : (n : ℕ) (rest : String) → read_back (dots n rest) ≡ n ∷ read_back rest
read_back-dots zero rest = refl
read_back-dots (suc n) rest = rw (read_back-dots n rest)

read_back-written : (ns : List ℕ) → read_back (written ns) ≡ ns
read_back-written [] = refl
read_back-written (n ∷ ns) = rw (read_back-dots n (written ns), read_back-written ns)

length-copies : (n x : ℕ) → length (copies n x) ≡ n
length-copies zero x = refl
length-copies (suc n) x = ap suc (length-copies n x)

equal_refl : (xs : List ℕ) → equal xs xs ≡ true
equal_refl [] = refl
equal_refl (x ∷ xs) = ground (arith, equal_refl xs)

equal_sound : (xs ys : List ℕ) → equal xs ys ≡ true → xs ≡ ys
equal_sound [] [] h = refl
equal_sound [] (y ∷ ys) h = cc
equal_sound (x ∷ xs) [] h = cc
equal_sound (x ∷ xs) (y ∷ ys) h =
    let same : x ≡ y = ground (arith, h) in
    let rest : equal xs ys ≡ true = ground (arith, h) in let q = equal_sound xs ys rest in cc

passwords-IsPasswordPlatform : IsPasswordPlatform passwords
passwords-IsPasswordPlatform = record {
  hex_part =
      λ x xs. record { plain = written_plain (x ∷ xs); present = dots_present x (written xs) };
  hex_back = read_back-written;
  number_part =
      λ n. record { plain = dots_plain n "" (written_plain []); present = dots_present n "" };
  number_back = λ n. ap head? (read_back-dots n "");
  key_long = λ password salt n options {key} h.
      subst (λ ks. length ks ≡ n) (ap (λ o. or_default o []) h) (length-copies n (size password));
  equal_refl = equal_refl;
  equal_sound = equal_sound;
}

abbrev stored : String
stored = join_parts (
    "scrypt"
    ∷ dots 16384 ""
    ∷ dots 8 ""
    ∷ dots 1 ""
    ∷ written (1 ∷ [])
    ∷ written (copies 64 6)
    ∷ [])

hashed_secret : hash_password passwords (1 ∷ []) "secret" ≡ some stored
unfolding hash_password
hashed_secret = refl

hash_password-verify_password_example :
    (verify_password passwords "guess" stored ≡ some true)
    ↔ (some (copies 64 5) ≡ some (copies 64 6))
hash_password-verify_password_example =
    hash_password-verify_password passwords passwords-IsPasswordPlatform 1 [] "secret" "guess"
      hashed_secret

dot : IsPart "."
unfolding has_dollar
dot = record { plain = refl; present = refl }

verify_password_no_key_example :
    verify_password passwords "anything" (join_parts ("scrypt" ∷ "." ∷ "." ∷ "." ∷ "." ∷ "." ∷ []))
    ≡ some true
verify_password_no_key_example =
    verify_password_no_key passwords passwords-IsPasswordPlatform "anything" dot dot dot dot dot
      refl refl

abbrev trim_start : String → String
trim_start String.[] = ""
trim_start (String.◌∷◌ c s) =
    let rest = trim_start s in if eqb (code c) b' ' then rest else String.◌∷◌ c s

abbrev pub platform : AuthPlatform
platform = record {
  passwords = passwords;
  sha256_hex = λ s. "h" ++ s;
  trim = trim_start;
  to_lower_case = λ s. s;
  production = true;
}

-- A program on the tables, with the operations on accounts open.
unfoldable pub auth_run : {S A : Type 0} → (S → A) → S → A
unfolding create_session resolve_session resolve_row resolve_found insert_session destroy_session
    delete_sessions hash_token register register_unless_taken insert_user hash_password
    normalise_email
auth_run f s = f s

abbrev pub signed_in : Db
signed_in = (transaction (create_session platform "tok" 5 "u1") empty_shop).1

issued_lem :
    transaction (create_session platform "tok" 5 "u1") empty_shop
    ≡ (ok (record { token = "tok"; expires_at = 5 + session_ttl_ms }), signed_in)
unfolding auth_run
issued_lem = refl

create_session_lifetime_example :
    (5 + session_ttl_ms ≡ 5 + session_ttl_ms)
    × (transaction (resolve_session platform 6 "tok") signed_in ≡ (
        if ltb 6 (5 + session_ttl_ms)
        then (ok (some (session_user ada)), signed_in)
        else (ok none, without (hash_token platform "tok") signed_in)))
create_session_lifetime_example =
    create_session_lifetime platform "tok" 5 6 ada empty_shop refl issued_lem

abbrev signed_out : Db
signed_out = (transaction (destroy_session platform "tok") signed_in).1

destroyed_lem : transaction (destroy_session platform "tok") signed_in ≡ (ok tt, signed_out)
unfolding auth_run
destroyed_lem = refl

other_hash : hash_token platform "other" ≢ hash_token platform "tok"
unfolding hash_token
other_hash same = cc same

abbrev pub draws : RegisterDraws
draws = record { id = "u2"; uuid = "77"; salt = 1 ∷ []; now = 9 }

abbrev bob : RegisterInput
bob = record { email = " bob@shop.example"; password = "secret"; display_name = "Bob" }

abbrev bob_user : SessionUser
bob_user = record { id = "u2"; external_ref = "local:77"; display_name = "Bob"; role = user }

abbrev registered : Db
registered = (transaction (register platform draws bob) empty_shop).1

registered_lem : transaction (register platform draws bob) empty_shop ≡ (ok bob_user, registered)
unfolding auth_run
registered_lem = refl

same_address : normalise_email platform "bob@shop.example" ≡ normalise_email platform bob.email
unfolding normalise_email
same_address = refl

register-authenticate_example :
    transaction (authenticate platform (2 ∷ []) "bob@shop.example" "secret") registered
    ≡ (ok (some bob_user), registered)
register-authenticate_example =
    register-authenticate platform passwords-IsPasswordPlatform draws bob 1 [] refl empty_shop
      registered_lem (2 ∷ []) "bob@shop.example" same_address

five_six : some (copies 64 5) ≢ some (copies 64 6)
five_six same = cc same

register-authenticate_other_example :
    transaction (authenticate platform (2 ∷ []) "bob@shop.example" "guess") registered
    ≡ (ok none, registered)
register-authenticate_other_example =
    register-authenticate_other platform passwords-IsPasswordPlatform draws bob 1 [] refl empty_shop
      registered_lem (2 ∷ []) "bob@shop.example" "guess" same_address refl five_six

register_once_example :
    transaction
      (register platform
        (record draws { id = "u3"; uuid = "78" })
        (record bob { email = "bob@shop.example" }))
      registered
    ≡ (err email_already_registered, registered)
register_once_example =
    register_once platform draws (record draws { id = "u3"; uuid = "78" }) bob
      (record bob { email = "bob@shop.example" }) empty_shop registered_lem same_address
