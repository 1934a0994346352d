-- ===== src/RehldsFrameHook/Lookups.antt =====
-- FindEngineFactory of src/RehldsFrameHook.cpp: which library of the engine it takes, and the references
-- to libraries that it holds on Linux meanwhile.
use amxx_mqtt_client.Prelude.{
  ℕ, ◌+◌, ◌-◌, ◌≤◌, ◌≡◌, sym, ◌↔◌, ◌⊎◌, inl, inr, refl, Option, none, some, List, [], ◌∷◌, ◌==◌,
  arith, Option-cases, if◌then◌else◌,
}
use mathlib.Core.Path.{subst, fun_ext}
use amxx_mqtt_client.RehldsFrameHook.{Engine, EngineName, first_factory}

module _ (e : Engine) where
  -- The library is not loaded, or has no factory.
  abbrev pub HasNone : EngineName → Type 0
  HasNone name = (e.dlopen name ≡ none) ⊎ ((l : ℕ) × (e.dlopen name ≡ some l) × (e.dlsym l ≡ none))

  -- The factory of the first library that has one.
  pub data IsFirst (factory : ℕ) : List EngineName → Type 0 where
    here :
        {name : EngineName} {names : List EngineName} (l : ℕ)
        → e.dlopen name ≡ some l
        → e.dlsym l ≡ some factory
        → IsFirst factory (name ∷ names)
    there :
        {name : EngineName} {names : List EngineName}
        → HasNone name
        → IsFirst factory names
        → IsFirst factory (name ∷ names)

  first_factory-IsFirst :
      (names : List EngineName) (f : ℕ) → first_factory e names ≡ some f → IsFirst f names
  unfolding first_factory
  first_factory-IsFirst [] f h = absurd (ground arith)
  first_factory-IsFirst (name ∷ names) f h = elim (Option-cases (e.dlopen name)) [
    | inl shut ↦ there (inl shut) (first_factory-IsFirst names f (ground (arith, h, shut)))
    | inr (l, open') ↦ elim (Option-cases (e.dlsym l)) [
      | inl empty ↦
          there (inr (l, open', empty))
            (first_factory-IsFirst names f (ground (arith, h, open', empty)))
      | inr (g, found) ↦ here l open' (ground (arith, h, open', found))
    ]
  ]

  IsFirst-first_factory :
      (f : ℕ) (names : List EngineName) → IsFirst f names → first_factory e names ≡ some f
  unfolding first_factory
  IsFirst-first_factory f _ (here l open' found) = ground (arith, open', found)
  IsFirst-first_factory f _ (there {names = names} (inl shut) rest) =
      ground (arith, shut, IsFirst-first_factory f names rest)
  IsFirst-first_factory f _ (there {names = names} (inr (l, open', empty)) rest) =
      ground (arith, open', empty, IsFirst-first_factory f names rest)

  pub first_factory_iff :
      (names : List EngineName) (f : ℕ) → (first_factory e names ≡ some f) ↔ IsFirst f names
  first_factory_iff names f = (first_factory-IsFirst names f, IsFirst-first_factory f names)

-- The calls of the loop on Linux that name a library.
pub data LoaderCall : Type 0 where
  opened looked_up closed : ℕ → LoaderCall

-- The loop on Linux, with its calls in their order.
unfoldable pub first_factory_linux : Engine → List EngineName → List LoaderCall × Option ℕ
first_factory_linux e [] = ([], none)
first_factory_linux e (name ∷ names) =
    let (calls, found) = first_factory_linux e names in
    elim (e.dlopen name) [
      | none ↦ (calls, found)
      | some l ↦ elim (e.dlsym l) [
        | none ↦ (opened l ∷ looked_up l ∷ closed l ∷ calls, found)
        | some f ↦ (opened l ∷ looked_up l ∷ closed l ∷ [], some f)
      ]
    ]

-- The calls are right if the loop holds `n` references to a library before the first: it looks up and
-- closes only what it holds a reference to, and holds none at the end.
abbrev pub IsBalanced : (ℕ → ℕ) → List LoaderCall → Type 0
IsBalanced held [] = (l : ℕ) → held l ≡ 0
IsBalanced held (opened l ∷ calls) = IsBalanced (λ k. if k == l then held k + 1 else held k) calls
IsBalanced held (looked_up l ∷ calls) = (1 ≤ held l) × IsBalanced held calls
IsBalanced held (closed l ∷ calls) =
    (1 ≤ held l) × IsBalanced (λ k. if k == l then held k - 1 else held k) calls

-- What a library's opening and closing make of the references.
abbrev visit : (ℕ → ℕ) → ℕ → ℕ → ℕ
visit held l k =
    if k == l
    then (if k == l then held k + 1 else held k) - 1
    else if k == l
    then held k + 1
    else held k

visit-same : (held : ℕ → ℕ) (l : ℕ) → visit held l ≡ held
visit-same held l = fun_ext (λ k. ground arith)

visit-IsBalanced :
    (held : ℕ → ℕ) (l : ℕ) (calls : List LoaderCall)
    → IsBalanced held calls
    → IsBalanced held (opened l ∷ looked_up l ∷ closed l ∷ calls)
visit-IsBalanced held l calls b =
    (ground arith, (ground arith, subst (λ h. IsBalanced h calls) (sym (visit-same held l)) b))

-- The loop on Linux finds what the loop finds, and leaves the references to the engine's libraries as
-- they were: it closes each library that it has opened, after it has looked into it.
pub first_factory_linux_balances :
    (e : Engine) (names : List EngineName)
    → ((first_factory_linux e names).1 ≡ first_factory e names)
      × IsBalanced (λ l. 0) (first_factory_linux e names).0
unfolding first_factory first_factory_linux
first_factory_linux_balances e [] = (refl, λ l. refl)
first_factory_linux_balances e (name ∷ names) =
    let (same, balanced) = first_factory_linux_balances e names in
    elim (Option-cases (e.dlopen name)) [
      | inl shut ↦ rw (shut, first_factory, first_factory_linux) (same, balanced)
      | inr (l, open') ↦ elim (Option-cases (e.dlsym l)) [
        | inl empty ↦
            let calls : (first_factory_linux e (name ∷ names)).0
                ≡ opened l ∷ looked_up l ∷ closed l ∷ (first_factory_linux e names).0 =
              ground (arith, open', empty) in
            (
              ground (arith, open', empty, same),
              rw calls (visit-IsBalanced (λ l. 0) l (first_factory_linux e names).0 balanced),
            )
        | inr (f, found) ↦
            let calls : (first_factory_linux e (name ∷ names)).0
                ≡ opened l ∷ looked_up l ∷ closed l ∷ [] =
              ground (arith, open', found) in
            (ground (arith, open', found), rw calls (visit-IsBalanced (λ l. 0) l [] (λ k. refl)))
      ]
    ]
