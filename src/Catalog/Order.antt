-- ===== src/Catalog/Order.antt =====
-- The order of `strcmp`.
use agent_seat.Prelude.{◌≡◌, ◌⊎◌, refl, arith, inl, inr, [], ◌∷◌, CString, Ordering, lt, eq, gt}
use agent_seat.Catalog.{str_compare}

pub Ordering-cases : (o : Ordering) → (o ≡ lt) ⊎ ((o ≡ eq) ⊎ (o ≡ gt))
Ordering-cases lt = inl refl
Ordering-cases eq = inr (inl refl)
Ordering-cases gt = inr (inr refl)

pub str_compare_refl : (a : CString) → str_compare a a ≡ eq
unfolding str_compare
str_compare_refl [] = refl
str_compare_refl (x ∷ xs) = ground (arith, str_compare_refl xs)

pub str_compare-eq : (a b : CString) → str_compare a b ≡ eq → a ≡ b
unfolding str_compare
str_compare-eq [] [] h = refl
str_compare-eq [] (y ∷ ys) h = cc
str_compare-eq (x ∷ xs) [] h = cc
str_compare-eq (x ∷ xs) (y ∷ ys) h = ground (arith, str_compare-eq xs ys)

pub str_compare_flip : (a b : CString) → str_compare a b ≡ lt → str_compare b a ≡ gt
unfolding str_compare
str_compare_flip [] [] h = cc
str_compare_flip [] (y ∷ ys) h = refl
str_compare_flip (x ∷ xs) [] h = cc
str_compare_flip (x ∷ xs) (y ∷ ys) h = ground (arith, str_compare_flip xs ys)
