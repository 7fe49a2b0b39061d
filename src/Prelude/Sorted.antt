-- ===== src/Prelude/Sorted.antt =====
-- Lists in the order of a comparison: what `ORDER BY` returns, and its rows behind a given one.
use mathlib.Core.Path.{◌≡◌, refl, sym, ap, ◌∙◌}
use mathlib.Core.Logic.{inl, inr}
use mathlib.Core.Bool.{Bool, true, not, ◌&&◌, ◌||◌}
use mathlib.Core.List.{List, [], ◌∷◌, ◌++◌, Memᴰ}
use native.Mathlib.Omega.{arith}
use jungle_gaming_backend_te.Prelude.Tests.{if◌then◌else◌, Bool-cases}
use jungle_gaming_backend_te.Prelude.Ordered.{
  keep_if, insert_by, order_by, keep_if-Mem, order_by-Mem, insert_by-Mem, Mem-between,
}

module _ {ℓ} {A : Type ℓ} (le : A → A → Bool) where
  -- Two elements that the comparison tells apart.
  abbrev pub apart : A → A → Bool
  apart x y = not (le x y && le y x)

  abbrev pub IsApart : List A → Type ℓ
  IsApart [] = Unit
  IsApart (x ∷ xs) = ((y : A) → Memᴰ y xs → (apart x y ≡ true) × (apart y x ≡ true)) × IsApart xs

  -- Each element comes before all behind it.
  abbrev pub IsInOrder : List A → Type ℓ
  IsInOrder [] = Unit
  IsInOrder (x ∷ xs) = ((y : A) → Memᴰ y xs → le x y ≡ true) × IsInOrder xs

  pub keep_if-IsApart : (test : A → Bool) (xs : List A) → IsApart xs → IsApart (keep_if test xs)
  keep_if-IsApart test [] h = tt
  keep_if-IsApart test (x ∷ xs) (here, rest) = elim (Bool-cases (test x)) [
    | inl hit ↦ rw hit (λ y m. here y (keep_if-Mem test y xs m).0, keep_if-IsApart test xs rest)
    | inr miss ↦ rw miss (keep_if-IsApart test xs rest)
  ]

  insert_by-IsApart :
      (x : A) (ys : List A)
      → ((y : A) → Memᴰ y ys → (apart x y ≡ true) × (apart y x ≡ true))
      → IsApart ys
      → IsApart (insert_by le x ys)
  insert_by-IsApart x [] h a = (h, tt)
  insert_by-IsApart x (y ∷ ys) h (here, rest) = elim (Bool-cases (le x y)) [
    | inl hit ↦ rw hit (h, (here, rest))
    | inr miss ↦ rw miss (
      λ z m. elim (insert_by-Mem le z x ys m) [
        | inl e ↦ let (a, b) = h y (Memᴰ.head refl) in rw e (b, a)
        | inr n ↦ here z n
      ],
      insert_by-IsApart x ys (λ z m. h z (Memᴰ.tail m)) rest,
    )
  ]

  pub order_by-IsApart : (xs : List A) → IsApart xs → IsApart (order_by le xs)
  order_by-IsApart [] h = tt
  order_by-IsApart (x ∷ xs) (here, rest) =
      insert_by-IsApart x (order_by le xs) (λ y m. here y (order_by-Mem le y xs m))
        (order_by-IsApart xs rest)

  module _ (total : (x y : A) → (le x y || le y x) ≡ true)
      (trans : (x y z : A) → le x y ≡ true → le y z ≡ true → le x z ≡ true) where
    insert_by-IsInOrder : (x : A) (ys : List A) → IsInOrder ys → IsInOrder (insert_by le x ys)
    insert_by-IsInOrder x [] h = (λ y m. elim m [ ], tt)
    insert_by-IsInOrder x (y ∷ ys) (here, rest) = elim (Bool-cases (le x y)) [
      | inl hit ↦ rw hit (
        λ z m. elim m [ Memᴰ.head e ↦ rw e hit | Memᴰ.tail n ↦ trans x y z hit (here z n) ],
        (here, rest),
      )
      | inr miss ↦ rw miss (
        λ z m. elim (insert_by-Mem le z x ys m) [
          | inl e ↦ rw e (ground (arith, total x y, miss))
          | inr n ↦ here z n
        ],
        insert_by-IsInOrder x ys rest,
      )
    ]

    pub order_by-IsInOrder : (xs : List A) → IsInOrder (order_by le xs)
    order_by-IsInOrder [] = tt
    order_by-IsInOrder (x ∷ xs) = insert_by-IsInOrder x (order_by le xs) (order_by-IsInOrder xs)

    insert_first :
        (x : A) (ys : List A) → ((y : A) → Memᴰ y ys → le x y ≡ true) → insert_by le x ys ≡ x ∷ ys
    insert_first x [] h = refl
    insert_first x (y ∷ ys) h = rw (h y (Memᴰ.head refl)) refl

    keep_if-insert_by :
        (test : A → Bool) (x : A) (ys : List A)
        → IsInOrder ys
        → keep_if test (insert_by le x ys)
          ≡ (if test x then insert_by le x (keep_if test ys) else keep_if test ys)
    keep_if-insert_by test x [] h = refl
    keep_if-insert_by test x (y ∷ ys) (here, rest) = elim (Bool-cases (le x y)) [
      | inr miss ↦ ground (arith, miss, keep_if-insert_by test x ys rest)
      | inl hit ↦
          let first = insert_first x (keep_if test (y ∷ ys)) (λ z m.
            elim (keep_if-Mem test z (y ∷ ys) m).0 [
              | Memᴰ.head e ↦ rw e hit
              | Memᴰ.tail n ↦ trans x y z hit (here z n)
            ]) in
          rw hit (rw first refl)
    ]

    inserted_if :
        (test : A → Bool) (x : A) (xs : List A)
        → order_by le (keep_if test xs) ≡ keep_if test (order_by le xs)
        → (if test x
            then insert_by le x (keep_if test (order_by le xs))
            else keep_if test (order_by le xs))
          ≡ order_by le (keep_if test (x ∷ xs))
    inserted_if test x xs h = elim (Bool-cases (test x)) [
      | inl hit ↦ rw hit (ap (insert_by le x) (sym h))
      | inr miss ↦ rw miss (sym h)
    ]

    keep_all :
        (test : A → Bool) (ys : List A)
        → ((y : A) → Memᴰ y ys → test y ≡ true)
        → keep_if test ys ≡ ys
    keep_all test [] h = refl
    keep_all test (y ∷ ys) h =
        rw (h y (Memᴰ.head refl)) (ap (◌∷◌ y) (keep_all test ys λ z m. h z (Memᴰ.tail m)))

    -- The rows that pass a test, in order, are those of the ordered rows that pass it.
    pub order_by-keep_if :
        (test : A → Bool) (xs : List A)
        → order_by le (keep_if test xs) ≡ keep_if test (order_by le xs)
    order_by-keep_if test [] = refl
    order_by-keep_if test (x ∷ xs) = sym (
        keep_if-insert_by test x (order_by le xs) (order_by-IsInOrder xs)
        ∙ inserted_if test x xs (order_by-keep_if test xs))

    -- Of ordered rows that are told apart, those strictly behind one are the ones that follow it.
    pub keep_if_behind :
        (x : A) (before after : List A)
        → IsInOrder (before ++ x ∷ after)
        → IsApart (before ++ x ∷ after)
        → keep_if (λ y. not (le y x)) (before ++ x ∷ after) ≡ after
    keep_if_behind x [] after (here, rest) (away, _) =
        let same : le x x ≡ true = ground (arith, total x x) in
        rw same (
          keep_all (λ y. not (le y x)) after
            λ y m.
              let before_it = here y m in let (far, _) = away y m in ground (arith, before_it, far))
    keep_if_behind x (b ∷ bs) after (here, rest) (_, away) =
        rw (here x (Mem-between x bs after)) (keep_if_behind x bs after rest away)
