-- ===== src/AmxxModule/Requests/Linking.antt =====
-- Which pointers AMXX_Attach of src/sdk/amxxmodule.cpp sets, and when it succeeds.
use amxx_mqtt_client.Prelude.{
  ℕ, ◌≡◌, refl, ◌∙◌, Bool, true, false, Option, none, some, List, [], ◌∷◌, ◌&&◌, arith, All,
  Bool-cases, Option-cases, inl, inr, if◌then◌else◌,
}
use amxx_mqtt_client.AmxxModule.Functions.{Function, Pointers, store, is_function}
use amxx_mqtt_client.AmxxModule.Requests.{ok, Request, Core, is_null, request_all}

-- The core has a function that is asked for, if the request must be met.
abbrev pub IsMet : Core → Request → Type 0
IsMet core r = r.is_required && is_null (core r.name) ≡ false

-- The last request for a function.
abbrev pub requested : Function → List Request → Option Request
requested f [] = none
requested f (r ∷ rs) = elim (requested f rs) [
  | some last ↦ some last
  | none ↦ if is_function r.function f then some r else none
]

-- What a pointer is after the requests.
abbrev pub answer : Core → Option Request → Option ℕ → Option ℕ
answer core none old = old
answer core (some r) old = core r.name

pub request_all-ok :
    (core : Core) (rs : List Request) (ps : Pointers)
    → All (IsMet core) rs
    → (request_all core rs ps).0 ≡ ok
unfolding request_all
request_all-ok core [] ps h = refl
request_all-ok core (r ∷ rs) ps h =
    rw (h.0, request_all) (request_all-ok core rs (store ps r.function (core r.name)) h.1)

pub IsMet-of_ok :
    (core : Core) (rs : List Request) (ps : Pointers)
    → (request_all core rs ps).0 ≡ ok
    → All (IsMet core) rs
unfolding request_all
IsMet-of_ok core [] ps h = tt
IsMet-of_ok core (r ∷ rs) ps h = elim (Bool-cases (r.is_required && is_null (core r.name))) [
  | inl missing ↦ absurd (ground (arith, missing))
  | inr met ↦ (met, IsMet-of_ok core rs (store ps r.function (core r.name)) (ground (arith, met)))
]

store-answer :
    (core : Core) (r : Request) (rs : List Request) (ps : Pointers) (f : Function)
    → answer core (requested f rs) (store ps r.function (core r.name) f)
      ≡ answer core (requested f (r ∷ rs)) (ps f)
store-answer core r rs ps f = elim (Option-cases (requested f rs)) [
  | inr (q, e) ↦ rw e refl
  | inl e ↦ elim (Bool-cases (is_function r.function f)) [
    | inl own ↦ rw (e, own) refl
    | inr other ↦ rw (e, other) refl
  ]
]

-- After requests that were met, each pointer is the answer to the last request for it.
pub request_all-answer :
    (core : Core) (rs : List Request) (ps : Pointers) (f : Function)
    → All (IsMet core) rs
    → (request_all core rs ps).1 f ≡ answer core (requested f rs) (ps f)
unfolding request_all
request_all-answer core [] ps f h = refl
request_all-answer core (r ∷ rs) ps f h =
    rw (h.0, request_all)
      (request_all-answer core rs (store ps r.function (core r.name)) f h.1
        ∙ store-answer core r rs ps f)

last-All :
    (P : Request → Type 0) (f : Function) (q r : Request)
    → P q
    → (o : Option Request) → (o ≡ some r → P r)
    → (elim o [ some last ↦ some last | none ↦ if is_function q.function f then some q else none ])
      ≡ some r
    → P r
last-All P f q r h (some last) later e = later e
last-All P f q r h none later e = own P q r h (is_function q.function f) e
  where
    own :
        (P : Request → Type 0) (q r : Request)
        → P q
        → (b : Bool) → (if b then some q else none) ≡ some r
        → P r
    own P q r h false e = absurd (ground (arith, e))
    own P q r h true e = let same : q ≡ r = cc e in rw same at h

requested-All :
    (P : Request → Type 0) (f : Function) (rs : List Request) (r : Request)
    → All P rs
    → requested f rs ≡ some r
    → P r
requested-All P f [] r h e = absurd (ground arith)
requested-All P f (q ∷ rs) r h e =
    last-All P f q r h.0 (requested f rs) (λ o. requested-All P f rs r h.1 o) e

-- The last request for the function must be met.
abbrev pub is_required_of : Option Request → Bool
is_required_of none = false
is_required_of (some r) = r.is_required

answer_null :
    (core : Core) (o : Option Request) (old : Option ℕ)
    → ((r : Request) → o ≡ some r → IsMet core r)
    → is_required_of o ≡ true
    → is_null (answer core o old) ≡ false
answer_null core none old h q = absurd (ground arith)
answer_null core (some r) old h q = let met = h r refl in ground (arith, met, q)

-- So no function whose request must be met is null.
pub request_all-null :
    (core : Core) (rs : List Request) (ps : Pointers) (f : Function)
    → All (IsMet core) rs
    → is_required_of (requested f rs) ≡ true
    → is_null ((request_all core rs ps).1 f) ≡ false
request_all-null core rs ps f h q =
    rw (request_all-answer core rs ps f h)
      (answer_null core (requested f rs) (ps f) (λ r e. requested-All (IsMet core) f rs r h e) q)
