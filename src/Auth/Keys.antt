-- ===== src/Auth/Keys.antt =====
-- Stored passwords (packages/api/src/modules/auth/auth.service.ts).
use mini_rewards_integration.Prelude.{
  ℕ, String, true, false, ◌&&◌, ◌≡◌, ◌≢◌, ◌↔◌, ◌∙◌, refl, ap, Option, none, some, List, [], ◌∷◌,
  ◌==◌, eqb, arith, length, subst, or_default, Option-cases, Bool-cases, inl, inr,
}
use mini_rewards_integration.Auth.Parts.{
  has_dollar, split_parts_whole, split_parts-append, scheme_plain,
}
use mini_rewards_integration.Auth.Passwords.{
  PasswordPlatform, ScryptOptions, scrypt_cost, scrypt_block_size, scrypt_parallelism, key_length,
  join_parts, own_options, stored_form, hash_password, same_key, verify_key, verify_parts,
  verify_password,
}

-- A text that can stand between two `$` signs, and is not empty.
pub record IsPart (s : String) : Type 0 where
  pub plain : has_dollar s ≡ false
  pub present : (s == "") ≡ false

-- What the code relies on in Node: hex and decimal texts are not empty and hold no `$`, and come back;
-- scrypt gives a key of the length asked for; `timingSafeEqual` says whether two keys are equal.
pub record IsPasswordPlatform (platform : PasswordPlatform) : Type 0 where
  pub hex_part : (x : ℕ) (xs : List ℕ) → IsPart (platform.to_hex (x ∷ xs))
  pub hex_back : (xs : List ℕ) → platform.from_hex (platform.to_hex xs) ≡ xs
  pub number_part : (n : ℕ) → IsPart (platform.show_number n)
  pub number_back : (n : ℕ) → platform.number (platform.show_number n) ≡ some n
  pub key_long :
      (password : String) (salt : List ℕ) (n : ℕ) (options : ScryptOptions) {key : List ℕ}
      → platform.scrypt password salt n options ≡ some key
      → length key ≡ n
  pub equal_refl : (xs : List ℕ) → platform.timing_safe_equal xs xs ≡ true
  pub equal_sound : (xs ys : List ℕ) → platform.timing_safe_equal xs ys ≡ true → xs ≡ ys

module _ (platform : PasswordPlatform) where
  -- A text in six filled parts reaches the derivation of the key.
  verify_filled :
      {cost block_size parallelism salt key : String} (password : String)
      → IsPart cost
      → IsPart block_size
      → IsPart parallelism
      → IsPart salt
      → IsPart key
      → verify_password platform password
          (join_parts ("scrypt" ∷ cost ∷ block_size ∷ parallelism ∷ salt ∷ key ∷ []))
        ≡ verify_key platform password cost block_size parallelism salt key
  unfolding verify_password verify_parts
  verify_filled {key} password is_cost is_block_size is_parallelism is_salt is_key =
      rw (split_parts-append "scrypt" _ scheme_plain) (
        rw (split_parts-append _ _ is_cost.plain) (
          rw (split_parts-append _ _ is_block_size.plain) (
            rw (split_parts-append _ _ is_parallelism.plain) (
              rw (split_parts-append _ _ is_salt.plain) (
                rw (split_parts_whole key is_key.plain) (
                  rw
                    (
                      is_cost.present, is_block_size.present, is_parallelism.present,
                      is_salt.present, is_key.present,
                    )
                    refl))))))

module _ (platform : PasswordPlatform) (laws : IsPasswordPlatform platform) where
  abbrev hashed : List ℕ → List ℕ → String
  hashed salt key = join_parts (
      "scrypt"
      ∷ platform.show_number scrypt_cost
      ∷ platform.show_number scrypt_block_size
      ∷ platform.show_number scrypt_parallelism
      ∷ platform.to_hex salt
      ∷ platform.to_hex key
      ∷ [])

  verify_stored :
      (password : String) (salt_head : ℕ) (salt key : List ℕ) (key_head : ℕ)
      → verify_password platform password (hashed (salt_head ∷ salt) (key_head ∷ key))
        ≡ same_key platform (key_head ∷ key) (
            platform.scrypt password
              (salt_head ∷ salt)
              (length (key_head ∷ key))
              (own_options platform))
  unfolding verify_key
  verify_stored password salt_head salt key key_head =
      rw
        (
          verify_filled platform password (laws.number_part scrypt_cost)
              (laws.number_part scrypt_block_size) (laws.number_part scrypt_parallelism)
              (laws.hex_part salt_head salt) (laws.hex_part key_head key),
          verify_key,
          laws.hex_back (salt_head ∷ salt),
          laws.hex_back (key_head ∷ key),
          laws.number_back scrypt_cost,
          laws.number_back scrypt_block_size,
          laws.number_back scrypt_parallelism,
        )
        refl

  -- What a stored hash checks: the key of the password at hand, under the salt of the hash.
  verify_hashed :
      (salt_head : ℕ) (salt : List ℕ) (password other : String) {stored : String}
      → hash_password platform (salt_head ∷ salt) password ≡ some stored
      → (key : List ℕ) × (platform.scrypt password
            (salt_head ∷ salt)
            key_length
            (own_options platform)
          ≡ some key)
        × (verify_password platform other stored
            ≡ same_key platform key
                (platform.scrypt other (salt_head ∷ salt) key_length (own_options platform)))
  unfolding hash_password
  verify_hashed salt_head salt password other {stored} h =
      elim (Option-cases
        (platform.scrypt password (salt_head ∷ salt) key_length (own_options platform))) [
          | inl refused ↦ cc (rw refused at h)
          | inr (key, derived) ↦
              (key, derived, keyed key derived (laws.key_long _ _ _ _ derived) (rw derived at h))
        ]
    where
      keyed :
          (key : List ℕ)
          → platform.scrypt password (salt_head ∷ salt) key_length (own_options platform) ≡ some key
          → length key ≡ key_length
          → stored_form platform (salt_head ∷ salt) (some key) ≡ some stored
          → verify_password platform other stored
            ≡ same_key platform key
                (platform.scrypt other (salt_head ∷ salt) key_length (own_options platform))
      keyed [] derived long form = ground (arith, long)
      keyed (k ∷ ks) derived long form =
          subst
            (λ text.
              verify_password platform other text
              ≡ same_key platform (k ∷ ks)
                  (platform.scrypt other (salt_head ∷ salt) key_length (own_options platform)))
            (ap (λ o. or_default o stored) form)
            (subst
              (λ n.
                verify_password platform other (hashed (salt_head ∷ salt) (k ∷ ks))
                ≡ same_key platform (k ∷ ks)
                    (platform.scrypt other (salt_head ∷ salt) n (own_options platform)))
              long (verify_stored other salt_head salt ks k))

  same_key-same : (key : List ℕ) → same_key platform key (some key) ≡ some true
  same_key-same key = rw (laws.equal_refl key) (ground arith)

  same_key_sound :
      (key : List ℕ) (derived : Option (List ℕ))
      → same_key platform key derived ≡ some true
      → derived ≡ some key
  same_key_sound key none h = cc
  same_key_sound key (some other) h = elim (Bool-cases (platform.timing_safe_equal other key)) [
    | inl equal ↦ ap some (laws.equal_sound other key equal)
    | inr differs ↦ (let h' = rw differs at h in ground (arith, h'))
  ]

  -- A hash accepts a password when the key that scrypt derives from it, under the salt and the costs of
  -- the hash, is the key that the hash was made of, and accepts no other. The salt is not empty.
  pub hash_password-verify_password :
      (salt_head : ℕ) (salt : List ℕ) (password other : String) {stored : String}
      → hash_password platform (salt_head ∷ salt) password ≡ some stored
      → (verify_password platform other stored ≡ some true) ↔ (
          platform.scrypt other (salt_head ∷ salt) key_length (own_options platform)
          ≡ platform.scrypt password (salt_head ∷ salt) key_length (own_options platform))
  hash_password-verify_password salt_head salt password other h =
      let (key, derived, checks) = verify_hashed salt_head salt password other h in
      rw (checks, derived) (same_key_sound key _, λ same. rw same (same_key-same key))

  same_key-some :
      (key other : List ℕ)
      → same_key platform key (some other) ≢ some true
      → same_key platform key (some other) ≡ some false
  same_key-some key other h =
      elim (Bool-cases (eqb (length other) (length key) && platform.timing_safe_equal other key)) [
        | inl same ↦ absurd (h (ap some same))
        | inr differs ↦ ap some differs
      ]

  pub verify_password_other :
      (salt_head : ℕ) (salt : List ℕ) (password other : String) {stored : String}
      {other_key : List ℕ}
      → hash_password platform (salt_head ∷ salt) password ≡ some stored
      → platform.scrypt other (salt_head ∷ salt) key_length (own_options platform) ≡ some other_key
      → platform.scrypt other (salt_head ∷ salt) key_length (own_options platform)
        ≢ platform.scrypt password (salt_head ∷ salt) key_length (own_options platform)
      → verify_password platform other stored ≡ some false
  verify_password_other salt_head salt password other {stored} {other_key} h derives differs =
      let (key, derived, checks) = verify_hashed salt_head salt password other h in
      let checked : verify_password platform other stored ≡ same_key platform key (some other_key) =
        rw derives at checks in
      checked
      ∙ same_key-some key other_key (λ accepted.
        differs
          ((hash_password-verify_password salt_head salt password other h).0 (checked ∙ accepted)))

  -- A stored hash whose last part decodes to no bytes, and whose parts are all filled, accepts every
  -- password, where scrypt gives an empty key for the length 0.
  pub verify_password_no_key :
      {cost block_size parallelism salt key : String} (password : String)
      → IsPart cost
      → IsPart block_size
      → IsPart parallelism
      → IsPart salt
      → IsPart key
      → platform.from_hex key ≡ []
      → platform.scrypt password (platform.from_hex salt) 0 (record {
        cost = platform.number cost;
        block_size = platform.number block_size;
        parallelism = platform.number parallelism;
      })
        ≡ some []
      → verify_password platform password
          (join_parts ("scrypt" ∷ cost ∷ block_size ∷ parallelism ∷ salt ∷ key ∷ []))
        ≡ some true
  unfolding verify_key
  verify_password_no_key password is_cost is_block_size is_parallelism is_salt is_key no_bytes
        empty_key =
      rw
        (
          verify_filled platform password is_cost is_block_size is_parallelism is_salt is_key,
          verify_key,
          no_bytes,
          empty_key,
        )
        (same_key-same [])
