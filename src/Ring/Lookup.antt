-- ===== src/Ring/Lookup.antt =====
-- src/dynamokv/ring.py: `bisect_left` with the wrap-around.
use secure_dynamo_kv_store.Prelude.{
  ℕ, zero, suc, ◌≤◌, ◌<◌, ◌≡◌, refl, ◌∙◌, ◌⊎◌, inl, inr, false, Option, none, some, List, [], ◌∷◌,
  arith, nat_eq, ltb, if◌then◌else◌, length, is_empty, get_elem?, In, here, there, In-cons, All,
  In-All, Bool-cases, Option-cases,
}
use secure_dynamo_kv_store.Ring.{bisect_left, wrap}

-- The first element that is not below `h`, and the first element.
unfoldable pub first_ge : List ℕ → ℕ → Option ℕ
first_ge [] h = none
first_ge (x ∷ xs) h = if ltb x h then first_ge xs h else some x

abbrev pub first : List ℕ → Option ℕ
first [] = none
first (x ∷ xs) = some x

abbrev pub or_first : Option ℕ → List ℕ → Option ℕ
or_first none hs = first hs
or_first (some p) hs = some p

get_elem?-bisect_left : (hs : List ℕ) (h : ℕ) → get_elem? hs (bisect_left hs h) ≡ first_ge hs h
unfolding bisect_left first_ge
get_elem?-bisect_left [] h = refl
get_elem?-bisect_left (x ∷ xs) h = elim (Bool-cases (ltb x h)) [
  | inl s ↦ rw s (get_elem?-bisect_left xs h)
  | inr s ↦ rw s
]

get_elem?-lt : (hs : List ℕ) (i : ℕ) {p : ℕ} → get_elem? hs i ≡ some p → i < length hs
get_elem?-lt [] i h = cc
get_elem?-lt (x ∷ xs) zero h = omega arith
get_elem?-lt (x ∷ xs) (suc i) h = omega (arith, get_elem?-lt xs i h)

bisect_left_end : (hs : List ℕ) (h : ℕ) → first_ge hs h ≡ none → bisect_left hs h ≡ length hs
unfolding bisect_left first_ge
bisect_left_end [] h e = refl
bisect_left_end (x ∷ xs) h e = elim (Bool-cases (ltb x h)) [
  | inl s ↦ rw (s, bisect_left_end xs h (rw s at e))
  | inr s ↦ absurd (ground arith)
]

get_elem?-first : (hs : List ℕ) → get_elem? hs 0 ≡ first hs
get_elem?-first [] = refl
get_elem?-first (x ∷ xs) = refl

-- The point at which a key's walk starts.
pub get_elem?-wrap :
    (hs : List ℕ) (h : ℕ) → get_elem? hs (wrap hs (bisect_left hs h)) ≡ or_first (first_ge hs h) hs
unfolding wrap
get_elem?-wrap hs h = elim (Option-cases (first_ge hs h)) [
  | inl e ↦ rw (bisect_left_end hs h e, e) (ground (arith, get_elem?-first hs))
  | inr (p, e) ↦
      let found : get_elem? hs (bisect_left hs h) ≡ some p = rw (get_elem?-bisect_left, e) in
      let lt = get_elem?-lt hs (bisect_left hs h) found in rw e (ground arith)
]

pub wrap-lt : (hs : List ℕ) (i : ℕ) → is_empty hs ≡ false → i ≤ length hs → wrap hs i < length hs
unfolding wrap
wrap-lt [] i e h = cc
wrap-lt (x ∷ xs) i e h = ground arith

pub bisect_left-le : (hs : List ℕ) (h : ℕ) → bisect_left hs h ≤ length hs
unfolding bisect_left
bisect_left-le [] h = omega arith
bisect_left-le (x ∷ xs) h = ground (arith, bisect_left-le xs h)

-- Every element is at most the later ones.
abbrev pub Sorted : List ℕ → Type 0
Sorted [] = Unit
Sorted (x ∷ xs) = All (λ y. x ≤ y) xs × Sorted xs

-- The clockwise successor of `h` among `hs`: the least point from `h` on, or else the least of all.
pub record Successor (hs : List ℕ) (h p : ℕ) : Type 0 where
  pub point : In p hs
  pub place :
      ((h ≤ p) × ((q : ℕ) → In q hs → h ≤ q → p ≤ q))
      ⊎ (((q : ℕ) → In q hs → q < h) × ((q : ℕ) → In q hs → p ≤ q))

first_ge-In : (hs : List ℕ) (h : ℕ) {p : ℕ} → first_ge hs h ≡ some p → In p hs × (h ≤ p)
unfolding first_ge
first_ge-In [] h e = cc
first_ge-In (x ∷ xs) h e = elim (Bool-cases (ltb x h)) [
  | inl s ↦ let r = first_ge-In xs h (rw s at e) in (there r.0, r.1)
  | inr s ↦ (here (ground arith), ground arith)
]

first_ge-least :
    (hs : List ℕ) (h : ℕ) {p : ℕ}
    → Sorted hs
    → first_ge hs h ≡ some p
    → (q : ℕ) → In q hs
    → h ≤ q
    → p ≤ q
unfolding first_ge
first_ge-least [] h s e q m le = elim m [ ]
first_ge-least (x ∷ xs) h s e q m le = elim (Bool-cases (ltb x h)) [
  | inl t ↦ elim (In-cons m) [
    | inl i ↦ absurd (ground arith)
    | inr n ↦ first_ge-least xs h s.1 (rw t at e) q n le
  ]
  | inr t ↦ elim (In-cons m) [
    | inl i ↦ ground arith
    | inr n ↦ let up = In-All (λ y. x ≤ y) xs s.0 n in ground arith
  ]
]

first_ge-none : (hs : List ℕ) (h : ℕ) → first_ge hs h ≡ none → (q : ℕ) → In q hs → q < h
unfolding first_ge
first_ge-none [] h e q m = elim m [ ]
first_ge-none (x ∷ xs) h e q m = elim (Bool-cases (ltb x h)) [
  | inl t ↦ elim (In-cons m) [ inl i ↦ ground arith | inr n ↦ first_ge-none xs h (rw t at e) q n ]
  | inr t ↦ absurd (ground arith)
]

first-least : (hs : List ℕ) {p : ℕ} → Sorted hs → first hs ≡ some p → (q : ℕ) → In q hs → p ≤ q
first-least [] s e q m = elim m [ ]
first-least (x ∷ xs) s e q m = elim (In-cons m) [
  | inl i ↦ ground arith
  | inr n ↦ let up = In-All (λ y. x ≤ y) xs s.0 n in ground arith
]

first-In : (hs : List ℕ) {p : ℕ} → first hs ≡ some p → In p hs
first-In [] e = cc
first-In (x ∷ xs) e = here (ground arith)

-- On ascending hashes the walk starts at the successor.
pub wrap-Successor :
    (hs : List ℕ) (h p : ℕ)
    → Sorted hs
    → get_elem? hs (wrap hs (bisect_left hs h)) ≡ some p
    → Successor hs h p
wrap-Successor hs h p s e = elim (Option-cases (first_ge hs h)) [
  | inl n ↦
      let f : first hs ≡ some p = rw (get_elem?-wrap, n) at e in
      record { point = first-In hs f; place = inr (first_ge-none hs h n, first-least hs s f) }
  | inr (q, f) ↦
      let i : some q ≡ some p = rw (get_elem?-wrap, f) at e in
      let g : first_ge hs h ≡ some p = f ∙ i in
      let r = first_ge-In hs h g in
      record { point = r.0; place = inl (r.1, first_ge-least hs h s g) }
]
