-- ===== src/Prelude/Counting.antt =====
-- Lists with no repetition, and how many things fit into one.
use Prim.Native.Nat.{ℕ, zero, suc, ◌+◌, ◌≤◌, ◌<◌}
use mathlib.Core.Path.{◌≡◌, refl, ap, sym}
use mathlib.Core.Logic.{◌⊎◌, inl, inr}
use mathlib.Core.Option.{some}
use mathlib.Core.List.{List, [], ◌∷◌, ◌++◌}
use native.Mathlib.Omega.{arith}
use secure_dynamo_kv_store.Prelude.Lists.{
  length, get_elem?, length-append, In, here, there, In-cons, In-append_left, In-append_right,
  In-append-split,
}

module _ {ℓ} {A : Type ℓ} where
  -- No element twice.
  abbrev pub Unique : List A → Type ℓ
  Unique [] = Unit
  Unique (x ∷ xs) = (¬ In x xs) × Unique xs

  abbrev pub Below : List A → List A → Type ℓ
  Below xs ys = (a : A) → In a xs → In a ys

  pub Unique-snoc : (xs : List A) (a : A) → Unique xs → ¬ In a xs → Unique (xs ++ a ∷ [])
  Unique-snoc [] a u h = (λ m. elim m [ ], tt)
  Unique-snoc (x ∷ xs) a u h = (
    λ m. elim (In-append-split xs (a ∷ []) m) [
      | inl l ↦ u.0 l
      | inr r ↦ elim (In-cons r) [ inl e ↦ h (here (sym e)) | inr k ↦ elim k [ ] ]
    ],
    Unique-snoc xs a u.1 (λ m. h (there m)),
  )

  -- A list without one place that holds `a`.
  pub In-split : (a : A) (xs : List A) → In a xs → (l r : List A) × (xs ≡ l ++ a ∷ r)
  In-split a (x ∷ xs) (here e) = ([], xs, ap (λ y. y ∷ xs) (sym e))
  In-split a (x ∷ xs) (there m) = let (l, r, e) = In-split a xs m in (x ∷ l, r, ap (◌∷◌ x) e)
  In-split a [] m = elim m [ ]

  In-drop_middle : (a b : A) (l r : List A) → In b (l ++ a ∷ r) → (b ≡ a) ⊎ In b (l ++ r)
  In-drop_middle a b l r m = elim (In-append-split l (a ∷ r) m) [
    | inl i ↦ inr (In-append_left r i)
    | inr i ↦ elim (In-cons i) [ inl e ↦ inl e | inr k ↦ inr (In-append_right l k) ]
  ]

  -- Distinct things that all stand in a list are at most as many as the list is long.
  pub Unique-length-le : (xs ys : List A) → Unique xs → Below xs ys → length xs ≤ length ys
  Unique-length-le [] ys u b = omega arith
  Unique-length-le (x ∷ xs) ys u b =
      let (l, r, e) = In-split x ys (b x (here refl)) in
      let rest : Below xs (l ++ r) = λ a m.
        elim (In-drop_middle x a l r (rw e at (b a (there m)))) [
          | inl i ↦ absurd (u.0 (rw i at m))
          | inr k ↦ k
        ] in
      let count : length ys ≡ length l + suc (length r) = rw e (length-append l (x ∷ r)) in
      omega (arith, Unique-length-le xs (l ++ r) u.1 rest, length-append l r)

  pub get_elem?-In : (xs : List A) (i : ℕ) {a : A} → get_elem? xs i ≡ some a → In a xs
  get_elem?-In [] i h = cc
  get_elem?-In (x ∷ xs) zero h = here (ground arith)
  get_elem?-In (x ∷ xs) (suc i) h = there (get_elem?-In xs i h)

  pub get_elem?-lt : (xs : List A) (i : ℕ) → i < length xs → (a : A) × (get_elem? xs i ≡ some a)
  get_elem?-lt [] i h = absurd (omega arith)
  get_elem?-lt (x ∷ xs) zero h = (x, refl)
  get_elem?-lt (x ∷ xs) (suc i) h = get_elem?-lt xs i (omega arith)

  pub In-get_elem? :
      (a : A) (xs : List A) → In a xs → (i : ℕ) × (i < length xs) × (get_elem? xs i ≡ some a)
  In-get_elem? a [] m = elim m [ ]
  In-get_elem? a (x ∷ xs) (here e) = (0, omega arith, ap some (sym e))
  In-get_elem? a (x ∷ xs) (there m) = let (i, h, e) = In-get_elem? a xs m in (suc i, omega arith, e)
