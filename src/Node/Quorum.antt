-- ===== src/Node/Quorum.antt =====
-- Counting two quorums of one preference list.
use secure_dynamo_kv_store.Prelude.{
  ℕ, ◌+◌, ◌≤◌, ◌<◌, min, ◌≡◌, refl, inl, inr, String, string_eq, false, List, [], ◌∷◌, ◌++◌, arith,
  length, length-append, any, any-true, any-false, In, here, there, In-append-split, Unique, Below,
  Unique-length-le, Bool-cases,
}
use secure_dynamo_kv_store.Ring.{member}
use secure_dynamo_kv_store.Ring.Membership.{member→In, In→member}

Unique-append :
    (xs ys : List String)
    → Unique xs
    → Unique ys
    → ((a : String) → In a xs → ¬ In a ys)
    → Unique (xs ++ ys)
Unique-append [] ys u v d = v
Unique-append (x ∷ xs) ys u v d = (
  λ m. elim (In-append-split xs ys m) [ inl l ↦ u.0 l | inr r ↦ d x (here refl) r ],
  Unique-append xs ys u.1 v (λ a m. d a (there m)),
)

-- Distinct names that are too many to be apart in a list have one in common.
pub overlap :
    (xs ys zs : List String)
    → Unique xs
    → Unique ys
    → Below xs zs
    → Below ys zs
    → length zs < length xs + length ys
    → (a : String) × In a xs × In a ys
overlap xs ys zs u v bx by lt = elim (Bool-cases (any (λ x. member ys x) xs)) [
  | inl s ↦ let (a, m, e) = any-true (λ x. member ys x) xs s in (a, m, member→In ys a e)
  | inr s ↦
      let apart : (a : String) → In a xs → ¬ In a ys = λ a m n.
        let no : member ys a ≡ false = any-false (λ x. member ys x) xs s m in
        cc (no, In→member ys a n) in
      let both : Below (xs ++ ys) zs =
        λ a m. elim (In-append-split xs ys m) [ inl l ↦ bx a l | inr r ↦ by a r ] in
      absurd (
        omega (
          arith,
          Unique-length-le (xs ++ ys) zs (Unique-append xs ys u v apart) both,
          length-append xs ys,
        ))
]

-- R + W > N makes the thresholds of a read and a write add up to more than the list.
pub thresholds : (n r w p : ℕ) → 0 < r → 0 < w → 0 < p → n < r + w → p ≤ n → p < min r p + min w p
thresholds n r w p hr hw hp h le = omega arith
