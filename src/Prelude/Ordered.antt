-- ===== src/Prelude/Ordered.antt =====
-- `ORDER BY` and `LIMIT` of a query: insertion in the order of a comparison, and the first elements.
use Prim.Native.Nat.{ℕ, zero, suc, ◌≤◌}
use mathlib.Core.Path.{◌≡◌, refl, ap}
use mathlib.Core.Logic.{◌⊎◌, inl, inr}
use mathlib.Core.Bool.{Bool, true, false}
use mathlib.Core.List.{List, [], ◌∷◌, ◌++◌, map, Memᴰ}
use native.Mathlib.Omega.{arith}
use jungle_gaming_backend_te.Prelude.Lists.{length}
use jungle_gaming_backend_te.Prelude.Tests.{if◌then◌else◌, Bool-cases}

module _ {ℓ} {A : Type ℓ} where
  -- `WHERE`
  abbrev pub keep_if : (A → Bool) → List A → List A
  keep_if test [] = []
  keep_if test (x ∷ xs) = if test x then x ∷ keep_if test xs else keep_if test xs

  -- `LIMIT`
  abbrev pub limit_to : ℕ → List A → List A
  limit_to zero xs = []
  limit_to (suc n) [] = []
  limit_to (suc n) (x ∷ xs) = x ∷ limit_to n xs

  abbrev pub insert_by : (A → A → Bool) → A → List A → List A
  insert_by le x [] = x ∷ []
  insert_by le x (y ∷ ys) = if le x y then x ∷ y ∷ ys else y ∷ insert_by le x ys

  -- `ORDER BY`
  abbrev pub order_by : (A → A → Bool) → List A → List A
  order_by le [] = []
  order_by le (x ∷ xs) = insert_by le x (order_by le xs)

  -- A list whose form depends on a test.
  split_if :
      {x : A} (b : Bool) (xs ys : List A)
      → Memᴰ x (if b then xs else ys)
      → ((b ≡ true) × Memᴰ x xs) ⊎ ((b ≡ false) × Memᴰ x ys)
  split_if true xs ys m = inl (refl, m)
  split_if false xs ys m = inr (refl, m)

  pub keep_if-Mem :
      (test : A → Bool) (x : A) (xs : List A)
      → Memᴰ x (keep_if test xs)
      → Memᴰ x xs × (test x ≡ true)
  keep_if-Mem test x [] m = elim m [ ]
  keep_if-Mem test x (y ∷ ys) m = elim (split_if (test y) _ _ m) [
    | inl (hit, Memᴰ.head e) ↦ (Memᴰ.head e, rw e hit)
    | inl (hit, Memᴰ.tail n) ↦
        let (here, passes) = keep_if-Mem test x ys n in (Memᴰ.tail here, passes)
    | inr (miss, n) ↦ let (here, passes) = keep_if-Mem test x ys n in (Memᴰ.tail here, passes)
  ]

  pub Mem-keep_if :
      (test : A → Bool) (x : A) (xs : List A) → Memᴰ x xs → test x ≡ true → Memᴰ x (keep_if test xs)
  Mem-keep_if test x [] m passes = elim m [ ]
  Mem-keep_if test x (y ∷ ys) (Memᴰ.head e) passes = rw (← e) (rw passes (Memᴰ.head refl))
  Mem-keep_if test x (y ∷ ys) (Memᴰ.tail m) passes =
      let rest = Mem-keep_if test x ys m passes in
      elim (Bool-cases (test y)) [ inl hit ↦ rw hit (Memᴰ.tail rest) | inr miss ↦ rw miss rest ]

  pub limit_to-Mem : (n : ℕ) (x : A) (xs : List A) → Memᴰ x (limit_to n xs) → Memᴰ x xs
  limit_to-Mem zero x xs m = elim m [ ]
  limit_to-Mem (suc n) x [] m = elim m [ ]
  limit_to-Mem (suc n) x (y ∷ ys) (Memᴰ.head e) = Memᴰ.head e
  limit_to-Mem (suc n) x (y ∷ ys) (Memᴰ.tail m) = Memᴰ.tail (limit_to-Mem n x ys m)

  -- A limit that is no less than the length leaves everything.
  pub limit_to-length : (n : ℕ) (xs : List A) → length xs ≤ n → limit_to n xs ≡ xs
  limit_to-length zero [] h = refl
  limit_to-length zero (x ∷ xs) h = ground (arith, h)
  limit_to-length (suc n) [] h = refl
  limit_to-length (suc n) (x ∷ xs) h = ap (◌∷◌ x) (limit_to-length n xs (omega (arith, h)))

  module _ (le : A → A → Bool) where
    pub insert_by-Mem : (x y : A) (ys : List A) → Memᴰ x (insert_by le y ys) → (x ≡ y) ⊎ Memᴰ x ys
    insert_by-Mem x y [] (Memᴰ.head e) = inl e
    insert_by-Mem x y [] (Memᴰ.tail m) = elim m [ ]
    insert_by-Mem x y (z ∷ zs) m = elim (split_if (le y z) _ _ m) [
      | inl (_, Memᴰ.head e) ↦ inl e
      | inl (_, Memᴰ.tail n) ↦ inr n
      | inr (_, Memᴰ.head e) ↦ inr (Memᴰ.head e)
      | inr (_, Memᴰ.tail n) ↦ elim (insert_by-Mem x y zs n) [
        | inl e ↦ inl e
        | inr k ↦ inr (Memᴰ.tail k)
      ]
    ]

    Mem-insert_by : (x y : A) (ys : List A) → (x ≡ y) ⊎ Memᴰ x ys → Memᴰ x (insert_by le y ys)
    Mem-insert_by x y [] (inl e) = Memᴰ.head e
    Mem-insert_by x y [] (inr m) = elim m [ ]
    Mem-insert_by x y (z ∷ zs) h = elim (Bool-cases (le y z)) [
      | inl hit ↦ rw hit (elim h [ inl e ↦ Memᴰ.head e | inr m ↦ Memᴰ.tail m ])
      | inr miss ↦ rw miss (elim h [
        | inl e ↦ Memᴰ.tail (Mem-insert_by x y zs (inl e))
        | inr (Memᴰ.head e) ↦ Memᴰ.head e
        | inr (Memᴰ.tail m) ↦ Memᴰ.tail (Mem-insert_by x y zs (inr m))
      ])
    ]

    -- An order loses nothing and adds nothing.
    pub order_by-Mem : (x : A) (xs : List A) → Memᴰ x (order_by le xs) → Memᴰ x xs
    order_by-Mem x (y ∷ ys) m = elim (insert_by-Mem x y (order_by le ys) m) [
      | inl e ↦ Memᴰ.head e
      | inr n ↦ Memᴰ.tail (order_by-Mem x ys n)
    ]
    order_by-Mem x [] m = elim m [ ]

    pub Mem-order_by : (x : A) (xs : List A) → Memᴰ x xs → Memᴰ x (order_by le xs)
    Mem-order_by x [] m = elim m [ ]
    Mem-order_by x (y ∷ ys) (Memᴰ.head e) = Mem-insert_by x y (order_by le ys) (inl e)
    Mem-order_by x (y ∷ ys) (Memᴰ.tail m) =
        Mem-insert_by x y (order_by le ys) (inr (Mem-order_by x ys m))

-- An element of a mapped list comes from one of the list.
pub Mem-map {ℓ κ} :
    {B : Type κ} {A : Type ℓ} (f : A → B) (y : B) (xs : List A)
    → Memᴰ y (map f xs)
    → (x : A) × Memᴰ x xs × (y ≡ f x)
Mem-map f y [] m = elim m [ ]
Mem-map f y (x ∷ xs) (Memᴰ.head e) = (x, Memᴰ.head refl, e)
Mem-map f y (x ∷ xs) (Memᴰ.tail m) =
    let (z, here, same) = Mem-map f y xs m in (z, Memᴰ.tail here, same)

-- An element of a list with one element replaced is that one or was there before.
pub Mem-replaced {ℓ} :
    {A : Type ℓ} (x y z : A) (before : List A) (after : List A)
    → Memᴰ x (before ++ y ∷ after)
    → (x ≡ y) ⊎ Memᴰ x (before ++ z ∷ after)
Mem-replaced x y z [] after (Memᴰ.head e) = inl e
Mem-replaced x y z [] after (Memᴰ.tail m) = inr (Memᴰ.tail m)
Mem-replaced x y z (b ∷ bs) after (Memᴰ.head e) = inr (Memᴰ.head e)
Mem-replaced x y z (b ∷ bs) after (Memᴰ.tail m) = elim (Mem-replaced x y z bs after m) [
  | inl e ↦ inl e
  | inr n ↦ inr (Memᴰ.tail n)
]

-- The element between two lists, and an element of a list with one left out.
pub Mem-between {ℓ} :
    {A : Type ℓ} (x : A) (before : List A) (after : List A) → Memᴰ x (before ++ x ∷ after)
Mem-between x [] after = Memᴰ.head refl
Mem-between x (b ∷ bs) after = Memᴰ.tail (Mem-between x bs after)

pub Mem-removed {ℓ} :
    {A : Type ℓ} (x y : A) (before : List A) (after : List A)
    → Memᴰ x (before ++ after)
    → Memᴰ x (before ++ y ∷ after)
Mem-removed x y [] after m = Memᴰ.tail m
Mem-removed x y (b ∷ bs) after (Memᴰ.head e) = Memᴰ.head e
Mem-removed x y (b ∷ bs) after (Memᴰ.tail m) = Memᴰ.tail (Mem-removed x y bs after m)
