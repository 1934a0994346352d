-- ===== src/Prelude/Takes.antt =====
-- Taking elements out of a list at any place.
use mathlib.Core.List.{List, [], ◌∷◌, ◌++◌}

-- `xs` is `rest` with `x` at some place.
pub data Takes {A : Type 0} : List A → A → List A → Type 0 where
  first : {x : A} {xs : List A} → Takes (x ∷ xs) x xs
  later : {x y : A} {xs rest : List A} → Takes xs x rest → Takes (y ∷ xs) x (y ∷ rest)

-- The elements of the second list can be taken out of the first one after the other.
pub data Supplies {A : Type 0} : List A → List A → Type 0 where
  enough : {xs : List A} → Supplies xs []
  taking : {y : A} {xs rest ys : List A} → Takes xs y rest → Supplies rest ys → Supplies xs (y ∷ ys)

module _ {A : Type 0} where
  -- Two elements can be taken in either order.
  exchange :
      {xs ys zs : List A} {x y : A}
      → Takes xs x ys
      → Takes ys y zs
      → (vs : List A) × Takes xs y vs × Takes vs x zs
  exchange first t = (_, later t, first)
  exchange (later t) first = (_, first, t)
  exchange (later t) (later u) = let (vs, a, b) = exchange t u in (_, later a, later b)

  Takes-append :
      {xs rest : List A} {x : A} (ys : List A) → Takes xs x rest → Takes (xs ++ ys) x (rest ++ ys)
  Takes-append ys first = first
  Takes-append ys (later t) = later (Takes-append ys t)

  Takes-last : (xs : List A) (x : A) → Takes (xs ++ x ∷ []) x xs
  Takes-last [] x = first
  Takes-last (y ∷ xs) x = later (Takes-last xs x)

  -- One more element at both ends.
  pub Supplies-append :
      {xs ys : List A} (x : A) → Supplies xs ys → Supplies (xs ++ x ∷ []) (ys ++ x ∷ [])
  Supplies-append {xs} x enough = taking (Takes-last xs x) enough
  Supplies-append x (taking t s) = taking (Takes-append (x ∷ []) t) (Supplies-append x s)

  pub Supplies-more :
      {rest ys : List A}
      → Supplies rest ys
      → {xs : List A} {x : A} → Takes xs x rest
      → Supplies xs ys
  Supplies-more enough t = enough
  Supplies-more (taking u s) t = let (vs, a, b) = exchange t u in taking a (Supplies-more s b)

  -- An element in the middle can be taken first.
  pub Supplies-middle :
      (ys zs : List A) (x : A) {xs : List A}
      → Supplies xs (ys ++ (x ∷ zs))
      → (rest : List A) × Takes xs x rest × Supplies rest (ys ++ zs)
  Supplies-middle [] zs x (taking t s) = (_, t, s)
  Supplies-middle (y ∷ ys) zs x (taking t s) =
      let (rest, u, r) = Supplies-middle ys zs x s in
      let (vs, a, b) = exchange t u in (vs, a, taking b r)

  -- It can be left out, and it can be moved to the front.
  pub Supplies-without :
      (ys zs : List A) (x : A) {xs : List A} → Supplies xs (ys ++ (x ∷ zs)) → Supplies xs (ys ++ zs)
  Supplies-without ys zs x s = let (rest, t, r) = Supplies-middle ys zs x s in Supplies-more r t

  pub Supplies-front :
      (ws ys zs : List A) (x : A) {xs : List A}
      → Supplies xs (ws ++ (ys ++ (x ∷ zs)))
      → Supplies xs (ws ++ (x ∷ (ys ++ zs)))
  Supplies-front [] ys zs x s = let (rest, t, r) = Supplies-middle ys zs x s in taking t r
  Supplies-front (w ∷ ws) ys zs x (taking t s) = taking t (Supplies-front ws ys zs x s)

  pub Supplies-refl : (xs : List A) → Supplies xs xs
  Supplies-refl [] = enough
  Supplies-refl (x ∷ xs) = taking first (Supplies-refl xs)

  pub Supplies-prefix : (ys zs : List A) {xs : List A} → Supplies xs (ys ++ zs) → Supplies xs ys
  Supplies-prefix [] zs s = enough
  Supplies-prefix (y ∷ ys) zs (taking t s) = taking t (Supplies-prefix ys zs s)
