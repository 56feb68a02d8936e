-- ===== src/Prelude/Lists.antt =====
-- A table is the list of its rows. These are the ways in which a statement reads or changes one.
use Prim.Native.Nat.{ℕ, suc}
use mathlib.Core.Path.{◌≡◌, refl, sym, subst}
use mathlib.Core.Logic.{inl, inr}
use mathlib.Core.Bool.{Bool, true, false, ◌&&◌, ◌||◌, false≢true}
use mathlib.Core.Option.{Option, none, some}
use mathlib.Core.List.{List, [], ◌∷◌}
use native.Mathlib.Omega.{arith}
use mini_rewards_integration.Prelude.Tests.{Bool-cases, if◌then◌else◌}

module _ {ℓ} {A : Type ℓ} where
  abbrev pub length : List A → ℕ
  length [] = 0
  length (x ∷ xs) = suc (length xs)

  -- The first row that a condition holds for.
  abbrev pub find? : (A → Bool) → List A → Option A
  find? p [] = none
  find? p (x ∷ xs) = if p x then some x else find? p xs

  -- Whether a condition holds for some row.
  abbrev pub exists : (A → Bool) → List A → Bool
  exists p [] = false
  exists p (x ∷ xs) = p x || exists p xs

  -- The rows that a condition holds for, in their order.
  abbrev pub select : (A → Bool) → List A → List A
  select p [] = []
  select p (x ∷ xs) = let rest = select p xs in if p x then x ∷ rest else rest

  -- `UPDATE ... SET f WHERE p`
  abbrev pub update_where : (A → Bool) → (A → A) → List A → List A
  update_where p f [] = []
  update_where p f (x ∷ xs) = (if p x then f x else x) ∷ update_where p f xs

  pub find-some :
      (p : A → Bool) (xs : List A) → exists p xs ≡ true → (x : A) × (find? p xs ≡ some x)
  find-some p [] h = cc
  find-some p (x ∷ xs) h = elim (Bool-cases (p x)) [
    | inl e ↦ (x, rw e)
    | inr e ↦ let found = find-some p xs (rw e at h) in (found.0, rw e found.1)
  ]

  pub find-none : (p : A → Bool) (xs : List A) → exists p xs ≡ false → find? p xs ≡ none
  find-none p [] h = refl
  find-none p (x ∷ xs) h = ground (arith, find-none p xs)

  pub exists-find : (p : A → Bool) (xs : List A) (x : A) → find? p xs ≡ some x → exists p xs ≡ true
  exists-find p [] x h = cc
  exists-find p (y ∷ xs) x h = ground (arith, exists-find p xs x)

  pub not_exists-find : (p : A → Bool) (xs : List A) → find? p xs ≡ none → exists p xs ≡ false
  not_exists-find p [] h = refl
  not_exists-find p (y ∷ xs) h = ground (arith, not_exists-find p xs)

  pub find-holds : (p : A → Bool) (xs : List A) (x : A) → find? p xs ≡ some x → p x ≡ true
  find-holds p [] x h = cc
  find-holds p (y ∷ xs) x h = elim (Bool-cases (p y)) [
    | inl e ↦ let same : y ≡ x = cc (rw e at h) in subst (λ z. p z ≡ true) same e
    | inr e ↦ find-holds p xs x (rw e at h)
  ]

  -- A write that a test does not see leaves the test's answer.
  pub exists-update_where :
      (q p : A → Bool) (f : A → A) (xs : List A)
      → ((x : A) → q (f x) ≡ q x)
      → exists q (update_where p f xs) ≡ exists q xs
  exists-update_where q p f [] same = refl
  exists-update_where q p f (x ∷ xs) same = elim (Bool-cases (p x)) [
    | inl e ↦ rw (e, same x, exists-update_where q p f xs same)
    | inr e ↦ rw (e, exists-update_where q p f xs same)
  ]

  pub find-update_where :
      (q p : A → Bool) (f : A → A) (xs : List A) (x : A)
      → ((y : A) → q (f y) ≡ q y)
      → find? q xs ≡ some x
      → find? q (update_where p f xs) ≡ some (if p x then f x else x)
  find-update_where q p f [] x same h = cc
  find-update_where q p f (y ∷ xs) x same h = elim (Bool-cases (q y)) [
    | inr e ↦ elim (Bool-cases (p y)) [
      | inl w ↦ rw (w, same y, e) (find-update_where q p f xs x same (rw e at h))
      | inr w ↦ rw (w, e) (find-update_where q p f xs x same (rw e at h))
    ]
    | inl e ↦
        let first : y ≡ x = cc (rw e at h) in
        subst (λ z. find? q (update_where p f (y ∷ xs)) ≡ some (if p z then f z else z)) first
          (elim (Bool-cases (p y)) [ inl w ↦ rw (w, same y, e) refl | inr w ↦ rw (w, e) refl ])
  ]

  pub update_where-none :
      (p : A → Bool) (f : A → A) (xs : List A) → exists p xs ≡ false → update_where p f xs ≡ xs
  update_where-none p f [] h = refl
  update_where-none p f (x ∷ xs) h = elim (Bool-cases (p x)) [
    | inl e ↦ absurd (false≢true (sym (rw e at h)))
    | inr e ↦ rw (e, update_where-none p f xs (rw e at h))
  ]

  -- A narrower condition holds nowhere either.
  pub exists-and :
      (p q : A → Bool) (xs : List A) → exists p xs ≡ false → exists (λ x. p x && q x) xs ≡ false
  exists-and p q [] h = refl
  exists-and p q (x ∷ xs) h = elim (Bool-cases (p x)) [
    | inl e ↦ absurd (false≢true (sym (rw e at h)))
    | inr e ↦ rw (e, exists-and p q xs (rw e at h))
  ]
