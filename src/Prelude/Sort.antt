-- ===== src/Prelude/Sort.antt =====
-- Lists in an order given by a Boolean test, as `ORDER BY` gives them, and their pages.
use Prim.Native.Nat.{ℕ, zero, suc, ◌+◌, ◌≤◌}
use mathlib.Core.Path.{◌≡◌, refl, ap, subst, ◌∙◌}
use mathlib.Core.Logic.{inl, inr}
use mathlib.Core.Bool.{Bool, true, false, ◌&&◌, ◌||◌}
use mathlib.Core.Option.{Option, none, some}
use mathlib.Core.List.{List, [], ◌∷◌, ◌++◌, Perm}
use mathlib.Core.List.Perm
use native.Mathlib.Omega.{arith}
use mini_rewards_integration.Prelude.Tests.{Bool-cases, if◌then◌else◌}
use mini_rewards_integration.Prelude.Lists.{length, select}

module _ {ℓ} {A : Type ℓ} where
  abbrev pub take : ℕ → List A → List A
  take zero xs = []
  take (suc n) [] = []
  take (suc n) (x ∷ xs) = x ∷ take n xs

  abbrev pub drop : ℕ → List A → List A
  drop zero xs = xs
  drop (suc n) [] = []
  drop (suc n) (x ∷ xs) = drop n xs

  -- `items[items.length - 1]`
  abbrev pub last? : List A → Option A
  last? [] = none
  last? (x ∷ []) = some x
  last? (x ∷ (y ∷ ys)) = last? (y ∷ ys)

  pub take-drop : (n : ℕ) (xs : List A) → take n xs ++ drop n xs ≡ xs
  take-drop zero xs = refl
  take-drop (suc n) [] = refl
  take-drop (suc n) (x ∷ xs) = ap (◌∷◌ x) (take-drop n xs)

  pub length-take-le : (n : ℕ) (xs : List A) → length (take n xs) ≤ n
  length-take-le zero xs = omega arith
  length-take-le (suc n) [] = omega arith
  length-take-le (suc n) (x ∷ xs) = omega (arith, length-take-le n xs)

  pub length-drop : (n : ℕ) (xs : List A) → n ≤ length xs → length (drop n xs) + n ≡ length xs
  length-drop zero xs h = omega arith
  length-drop (suc n) [] h = absurd (omega arith)
  length-drop (suc n) (x ∷ xs) h = omega (arith, length-drop n xs (omega arith))

  -- One row more than a page shows whether another page follows.
  pub take-take : (n : ℕ) (xs : List A) → take n (take (suc n) xs) ≡ take n xs
  take-take zero xs = refl
  take-take (suc n) [] = refl
  take-take (suc n) (x ∷ xs) = ap (◌∷◌ x) (take-take n xs)

  pub take-all : (n : ℕ) (xs : List A) → length xs ≤ n → take n xs ≡ xs
  take-all zero [] h = refl
  take-all zero (x ∷ xs) h = absurd (omega arith)
  take-all (suc n) [] h = refl
  take-all (suc n) (x ∷ xs) h = ap (◌∷◌ x) (take-all n xs (omega arith))

  pub length-take : (n : ℕ) (xs : List A) → n ≤ length xs → length (take n xs) ≡ n
  length-take zero xs h = refl
  length-take (suc n) [] h = absurd (omega arith)
  length-take (suc n) (x ∷ xs) h = omega (arith, length-take n xs (omega arith))

  pub last?-cons : (x : A) (xs : List A) → (y : A) × (last? (x ∷ xs) ≡ some y)
  last?-cons x [] = (x, refl)
  last?-cons x (y ∷ ys) = last?-cons y ys

  -- Every element.
  abbrev pub All {κ} : (A → Type κ) → List A → Type κ
  All P [] = Unit
  All P (x ∷ xs) = P x × All P xs

  All-map {κ μ} :
      {P : A → Type κ} {Q : A → Type μ}
      → ((x : A) → P x → Q x)
      → (xs : List A) → All P xs
      → All Q xs
  All-map f [] h = tt
  All-map f (x ∷ xs) h = (f x h.0, All-map f xs h.1)

  pub All-select {κ} :
      (P : A → Type κ) (q : A → Bool) (xs : List A) → All P xs → All P (select q xs)
  All-select P q [] h = tt
  All-select P q (x ∷ xs) h = elim (Bool-cases (q x)) [
    | inl e ↦ rw e (h.0, All-select P q xs h.1)
    | inr e ↦ rw e (All-select P q xs h.1)
  ]

  pub select-select :
      (p q : A → Bool) (xs : List A) → select q (select p xs) ≡ select (λ x. p x && q x) xs
  select-select p q [] = refl
  select-select p q (x ∷ xs) = ground (arith, select-select p q xs)

  pub select-agree :
      (p q : A → Bool) (xs : List A) → ((x : A) → p x ≡ q x) → select p xs ≡ select q xs
  select-agree p q [] h = refl
  select-agree p q (x ∷ xs) h = ground (arith, h x, select-agree p q xs h)

  pub select-holds : (p : A → Bool) (xs : List A) → All (λ x. p x ≡ true) (select p xs)
  select-holds p [] = tt
  select-holds p (x ∷ xs) = elim (Bool-cases (p x)) [
    | inl e ↦ rw e (e, select-holds p xs)
    | inr e ↦ rw e (select-holds p xs)
  ]

  select-All : (p : A → Bool) (xs : List A) → All (λ x. p x ≡ true) xs → select p xs ≡ xs
  select-All p [] h = refl
  select-All p (x ∷ xs) h = ground (arith, h.0, select-All p xs h.1)

  pub All-last_take {κ} :
      (P : A → Type κ) (n : ℕ) (xs : List A) (l : A) → All P xs → last? (take n xs) ≡ some l → P l
  All-last_take P zero xs l h e = cc
  All-last_take P (suc n) [] l h e = cc
  All-last_take P (suc zero) (x ∷ xs) l h e = let same : x ≡ l = cc in subst P same h.0
  All-last_take P (suc (suc n)) (x ∷ []) l h e = let same : x ≡ l = cc in subst P same h.0
  All-last_take P (suc (suc n)) (x ∷ (y ∷ ys)) l h e = All-last_take P (suc n) (y ∷ ys) l h.1 e

  module _ (before : A → A → Bool) where
    -- `x` among rows in order: behind all that come before it
    abbrev pub place : A → List A → List A
    place x [] = x ∷ []
    place x (y ∷ ys) = let later = place x ys in if before y x then y ∷ later else x ∷ y ∷ ys

    abbrev pub sort : List A → List A
    sort [] = []
    sort (x ∷ xs) = place x (sort xs)

    -- Each row comes before all that follow it.
    abbrev pub IsSorted : List A → Type 0
    IsSorted [] = Unit
    IsSorted (x ∷ xs) = All (λ y. before x y ≡ true) xs × IsSorted xs

    -- The order tells any two rows apart.
    abbrev pub IsTold : List A → Type 0
    IsTold [] = Unit
    IsTold (x ∷ xs) = All (λ y. (before x y || before y x) ≡ true) xs × IsTold xs

    place-perm : (x : A) (xs : List A) → Perm (place x xs) (x ∷ xs)
    place-perm x [] = Perm.rfl
    place-perm x (y ∷ ys) = elim (Bool-cases (before y x)) [
      | inl e ↦ rw e (Perm.trans (Perm.cons y (place-perm x ys)) (Perm.swap x y ys))
      | inr e ↦ rw e (Perm.rfl)
    ]

    pub sort-perm : (xs : List A) → Perm (sort xs) xs
    sort-perm [] = Perm.rfl
    sort-perm (x ∷ xs) = Perm.trans (place-perm x (sort xs)) (Perm.cons x (sort-perm xs))

    All-place {κ} : (P : A → Type κ) (x : A) (xs : List A) → P x → All P xs → All P (place x xs)
    All-place P x [] p h = (p, tt)
    All-place P x (y ∷ ys) p h = elim (Bool-cases (before y x)) [
      | inl e ↦ rw e (h.0, All-place P x ys p h.1)
      | inr e ↦ rw e (p, h)
    ]

    pub All-sort {κ} : (P : A → Type κ) (xs : List A) → All P xs → All P (sort xs)
    All-sort P [] h = tt
    All-sort P (x ∷ xs) h = All-place P x (sort xs) h.0 (All-sort P xs h.1)

    place-front : (x : A) (xs : List A) → All (λ y. before y x ≡ false) xs → place x xs ≡ x ∷ xs
    place-front x [] h = refl
    place-front x (y ∷ ys) h = rw h.0

    module _ (asym : (a b : A) → before a b ≡ true → before b a ≡ false)
        (trans : (a b c : A) → before a b ≡ true → before b c ≡ true → before a c ≡ true) where
      ahead :
          (x y : A) (ys : List A)
          → before x y ≡ true
          → IsSorted (y ∷ ys)
          → All (λ z. before x z ≡ true) (y ∷ ys)
      ahead x y ys e s = (e, All-map (λ z h. trans x y z e h) ys s.0)

      place-IsSorted :
          (x : A) (xs : List A)
          → IsSorted xs
          → All (λ y. (before x y || before y x) ≡ true) xs
          → IsSorted (place x xs)
      place-IsSorted x [] s told = (tt, tt)
      place-IsSorted x (y ∷ ys) s told = elim (Bool-cases (before y x)) [
        | inl e ↦
            rw e (All-place (λ z. before y z ≡ true) x ys e s.0, place-IsSorted x ys s.1 told.1)
        | inr e ↦ rw e (ahead x y ys (ground arith) s, s)
      ]

      pub sort-IsSorted : (xs : List A) → IsTold xs → IsSorted (sort xs)
      sort-IsSorted [] told = tt
      sort-IsSorted (x ∷ xs) told =
          place-IsSorted x (sort xs) (sort-IsSorted xs told.1)
            (All-sort (λ y. (before x y || before y x) ≡ true) xs told.0)

      select-place :
          (q : A → Bool) (x : A) (xs : List A)
          → IsSorted xs
          → All (λ y. (before x y || before y x) ≡ true) xs
          → select q (place x xs) ≡ (if q x then place x (select q xs) else select q xs)
      select-place q x [] s told = refl
      select-place q x (y ∷ ys) s told = elim (Bool-cases (before y x)) [
        | inl e ↦
            let ih = select-place q x ys s.1 told.1 in
            elim (Bool-cases (q x)) [
              | inl qx ↦ elim (Bool-cases (q y)) [
                | inl qy ↦ rw (e, qx, qy) (rw (ih, qx) (rw e))
                | inr qy ↦ rw (e, qx, qy) (rw (ih, qx))
              ]
              | inr qx ↦ elim (Bool-cases (q y)) [
                | inl qy ↦ rw (e, qx, qy) (rw (ih, qx))
                | inr qy ↦ rw (e, qx, qy) (rw (ih, qx))
              ]
            ]
        | inr e ↦
            let front = place-front x (select q (y ∷ ys)) (
              All-select (λ z. before z x ≡ false) q (y ∷ ys)
                (All-map (λ z h. asym x z h) (y ∷ ys) (ahead x y ys (ground arith) s))) in
            rw (e, front)
      ]

      pub select-sort :
          (q : A → Bool) (xs : List A) → IsTold xs → select q (sort xs) ≡ sort (select q xs)
      select-sort q [] told = refl
      select-sort q (x ∷ xs) told =
          select-place q x (sort xs) (sort-IsSorted xs told.1)
            (All-sort (λ y. (before x y || before y x) ≡ true) xs told.0)
          ∙ elim (Bool-cases (q x)) [
            | inl e ↦ rw e (ap (place x) (select-sort q xs told.1))
            | inr e ↦ rw e (select-sort q xs told.1)
          ]

      -- What comes behind the last row of a page is what the page leaves.
      pub select-after :
          (n : ℕ) (xs : List A) (l : A)
          → IsSorted xs
          → last? (take (suc n) xs) ≡ some l
          → select (before l) xs ≡ drop (suc n) xs
      select-after n [] l s e = refl
      select-after zero (x ∷ xs) l s e =
          let same : x ≡ l = cc in
          let irrefl : before x x ≡ false = ground (arith, asym x x) in
          subst (λ k. select (before k) (x ∷ xs) ≡ xs) same
            (rw irrefl (select-All (before x) xs s.0))
      select-after (suc n) (x ∷ []) l s e =
          let same : x ≡ l = cc in
          let irrefl : before x x ≡ false = ground (arith, asym x x) in
          subst (λ k. select (before k) (x ∷ []) ≡ []) same (rw irrefl refl)
      select-after (suc n) (x ∷ (y ∷ ys)) l s e =
          let first : before x l ≡ true =
            All-last_take (λ z. before x z ≡ true) (suc n) (y ∷ ys) l s.0 e in
          rw (asym x l first) (select-after n (y ∷ ys) l s.1 e)
