-- ===== src/Prelude/Lists.antt =====
-- Lists measured by native numbers, membership and "for all" by recursion.
use Prim.Native.Nat.{ℕ, zero, suc, ◌+◌}
use mathlib.Core.Path.{◌≡◌, refl, ap, subst, sym}
use mathlib.Core.Logic.{◌⊎◌, inl, inr}
use mathlib.Core.Bool.{Bool, true, false}
use mathlib.Core.List.{List, [], ◌∷◌, ◌++◌, map}
use mathlib.Core.Option.{Option, none, some}
use native.Mathlib.Omega.{arith}
use secure_dynamo_kv_store.Prelude.Tests.{if◌then◌else◌, Bool-cases}

module _ {ℓ} {A : Type ℓ} where
  abbrev pub length : List A → ℕ
  length [] = 0
  length (x ∷ xs) = suc (length xs)

  -- not l
  abbrev pub is_empty : List A → Bool
  is_empty [] = true
  is_empty (x ∷ xs) = false

  pub is_empty-false : (xs : List A) → is_empty xs ≡ false → (x : A) × (r : List A) × (xs ≡ x ∷ r)
  is_empty-false [] h = cc
  is_empty-false (x ∷ xs) h = (x, xs, refl)

  abbrev pub get_elem? : List A → ℕ → Option A
  get_elem? [] i = none
  get_elem? (x ∷ xs) zero = some x
  get_elem? (x ∷ xs) (suc i) = get_elem? xs i

  pub length-append : (xs ys : List A) → length (xs ++ ys) ≡ length xs + length ys
  length-append [] ys = omega arith
  length-append (x ∷ xs) ys = omega (arith, length-append xs ys)

  -- A list comprehension's `if`.
  unfoldable pub filter : (A → Bool) → List A → List A
  filter p [] = []
  filter p (x ∷ xs) = let rest = filter p xs in if p x then x ∷ rest else rest

  -- The built-in `all` over a generator.
  unfoldable pub all : (A → Bool) → List A → Bool
  all p [] = true
  all p (x ∷ xs) = if p x then all p xs else false

  -- The built-in `any` over a generator.
  unfoldable pub any : (A → Bool) → List A → Bool
  any p [] = false
  any p (x ∷ xs) = if p x then true else any p xs

  abbrev pub All {κ} : (A → Type κ) → List A → Type κ
  All P [] = Unit
  All P (x ∷ xs) = P x × All P xs

-- Membership, with the place kept.
pub data In {ℓ} {A : Type ℓ} (a : A) : List A → Type ℓ where
  here : {x : A} {xs : List A} → a ≡ x → In a (x ∷ xs)
  there : {x : A} {xs : List A} → In a xs → In a (x ∷ xs)

module _ {ℓ} {A : Type ℓ} where
  pub not-In-nil : {a : A} → In a [] → ⊥
  not-In-nil m = elim m [ ]

  pub In-append_left : {a : A} {xs : List A} (ys : List A) → In a xs → In a (xs ++ ys)
  In-append_left ys (here e) = here e
  In-append_left ys (there m) = there (In-append_left ys m)

  pub In-append_right : {a : A} (xs : List A) {ys : List A} → In a ys → In a (xs ++ ys)
  In-append_right [] m = m
  In-append_right (x ∷ xs) m = there (In-append_right xs m)

  pub In-append-split : {a : A} (xs ys : List A) → In a (xs ++ ys) → In a xs ⊎ In a ys
  In-append-split [] ys m = inr m
  In-append-split (x ∷ xs) ys (here e) = inl (here e)
  In-append-split (x ∷ xs) ys (there m) = elim (In-append-split xs ys m) [
    | inl l ↦ inl (there l)
    | inr r ↦ inr r
  ]

  pub In-cons : {a x : A} {xs : List A} → In a (x ∷ xs) → (a ≡ x) ⊎ In a xs
  In-cons (here e) = inl e
  In-cons (there m) = inr m

  pub In-filter : {a : A} (p : A → Bool) (xs : List A) → In a xs → p a ≡ true → In a (filter p xs)
  unfolding filter
  In-filter p [] m t = elim m [ ]
  In-filter p (x ∷ xs) (here e) t = rw (← e, t) (here refl)
  In-filter p (x ∷ xs) (there m) t = elim (Bool-cases (p x)) [
    | inl s ↦ rw s (there (In-filter p xs m t))
    | inr s ↦ rw s (In-filter p xs m t)
  ]

  pub filter-In : {a : A} (p : A → Bool) (xs : List A) → In a (filter p xs) → In a xs × (p a ≡ true)
  unfolding filter
  filter-In p [] m = elim m [ ]
  filter-In {a} p (x ∷ xs) m = elim (Bool-cases (p x)) [
    | inl s ↦ elim (In-cons (rw s at m)) [
      | inl e ↦ (here e, rw e s)
      | inr r ↦ let q = filter-In p xs r in (there q.0, q.1)
    ]
    | inr s ↦ let r = filter-In p xs (rw s at m) in (there r.0, r.1)
  ]

  pub all-In : (p : A → Bool) (xs : List A) {a : A} → all p xs ≡ true → In a xs → p a ≡ true
  unfolding all
  all-In p [] h m = elim m [ ]
  all-In p (x ∷ xs) h (here e) = rw e (ground arith)
  all-In p (x ∷ xs) h (there m) = all-In p xs (ground arith) m

  pub all_of_In : (p : A → Bool) (xs : List A) → ((a : A) → In a xs → p a ≡ true) → all p xs ≡ true
  unfolding all
  all_of_In p [] h = refl
  all_of_In p (x ∷ xs) h = rw (h x (here refl)) (all_of_In p xs (λ a m. h a (there m)))

  -- A failing `all` has a witness.
  pub all-false :
      (p : A → Bool) (xs : List A) → all p xs ≡ false → (a : A) × In a xs × (p a ≡ false)
  unfolding all
  all-false p [] h = cc
  all-false p (x ∷ xs) h = elim (Bool-cases (p x)) [
    | inl s ↦ let (a, m, e) = all-false p xs (rw s at h) in (a, there m, e)
    | inr s ↦ (x, here refl, s)
  ]

  -- A succeeding `any` has a witness.
  pub any-true : (p : A → Bool) (xs : List A) → any p xs ≡ true → (a : A) × In a xs × (p a ≡ true)
  unfolding any
  any-true p [] h = cc
  any-true p (x ∷ xs) h = elim (Bool-cases (p x)) [
    | inl s ↦ (x, here refl, s)
    | inr s ↦ let (a, m, e) = any-true p xs (rw s at h) in (a, there m, e)
  ]

  pub any_of_In : {a : A} (p : A → Bool) (xs : List A) → In a xs → p a ≡ true → any p xs ≡ true
  unfolding any
  any_of_In p [] m h = elim m [ ]
  any_of_In p (x ∷ xs) (here e) h = rw (← e, h)
  any_of_In p (x ∷ xs) (there m) h = elim (Bool-cases (p x)) [
    | inl s ↦ rw s
    | inr s ↦ rw s (any_of_In p xs m h)
  ]

  pub any-false : {a : A} (p : A → Bool) (xs : List A) → any p xs ≡ false → In a xs → p a ≡ false
  unfolding any
  any-false p [] h m = elim m [ ]
  any-false p (x ∷ xs) h (here e) = rw e (ground arith)
  any-false p (x ∷ xs) h (there m) = any-false p xs (ground arith) m

  pub All-In {κ} : (P : A → Type κ) (xs : List A) → ((a : A) → In a xs → P a) → All P xs
  All-In P [] h = tt
  All-In P (x ∷ xs) h = (h x (here refl), All-In P xs (λ a m. h a (there m)))

  pub In-All {κ} : (P : A → Type κ) {a : A} (xs : List A) → All P xs → In a xs → P a
  In-All P [] h m = elim m [ ]
  In-All P (x ∷ xs) h (here e) = subst P (sym e) h.0
  In-All P (x ∷ xs) h (there m) = In-All P xs h.1 m

  pub All-append {κ} : (P : A → Type κ) (xs ys : List A) → All P xs → All P ys → All P (xs ++ ys)
  All-append P [] ys h k = k
  All-append P (x ∷ xs) ys h k = (h.0, All-append P xs ys h.1 k)

module _ {ℓ κ} {A : Type ℓ} {B : Type κ} where
  pub In-map : (f : A → B) {a : A} {xs : List A} → In a xs → In (f a) (map f xs)
  In-map f (here e) = here (ap f e)
  In-map f (there m) = there (In-map f m)

  pub map-In : (f : A → B) {b : B} (xs : List A) → In b (map f xs) → (a : A) × In a xs × (b ≡ f a)
  map-In f [] m = elim m [ ]
  map-In f (x ∷ xs) (here e) = (x, here refl, e)
  map-In f (x ∷ xs) (there m) = let (a, n, e) = map-In f xs m in (a, there n, e)
