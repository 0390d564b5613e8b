-- ===== src/Base/Sort.antt =====
-- ORDER BY a number: a stable insertion sort. (PostgreSQL leaves the order of equal keys open.)
use mathlib.Core.List.{Perm}
use mathlib.Core.List.Perm
use Prim.Native.Nat.{ℕ, zero, suc, ◌≤◌}
use mathlib.Core.List.{List, [], ◌∷◌}
use native.Mathlib.Omega.{arith}
use hound_bot.Base.Test.{leb, if◌then◌else◌, Bool-cases}
use mathlib.Core.Logic.{inl, inr}
use hound_bot.Base.Lists.{All, All-implies, take, take-All}

module _ {A : Type 0} (key : A → ℕ) where
  pub insert_by : A → List A → List A
  insert_by x [] = x ∷ []
  insert_by x (y ∷ ys) =
      let rest = insert_by x ys in if leb (key x) (key y) then x ∷ y ∷ ys else y ∷ rest

  unfoldable pub order_by : List A → List A
  unfolding insert_by
  order_by [] = []
  order_by (x ∷ xs) = insert_by x (order_by xs)

  -- Each element is at most all that follow it.
  abbrev pub IsOrdered : List A → Type 0
  IsOrdered [] = Unit
  IsOrdered (x ∷ xs) = All (λ y. key x ≤ key y) xs × IsOrdered xs

  insert_by-perm : (x : A) (ys : List A) → Perm (insert_by x ys) (x ∷ ys)
  unfolding insert_by
  insert_by-perm x [] = Perm.refl _
  insert_by-perm x (y ∷ ys) = elim (Bool-cases (leb (key x) (key y))) [
    | inl e ↦ rw e (Perm.refl _)
    | inr e ↦ rw e (Perm.trans (Perm.cons y (insert_by-perm x ys)) (Perm.swap _ _ _))
  ]

  pub order_by-perm : (xs : List A) → Perm (order_by xs) xs
  unfolding order_by
  order_by-perm [] = Perm.refl _
  order_by-perm (x ∷ xs) =
      Perm.trans (insert_by-perm x (order_by xs)) (Perm.cons x (order_by-perm xs))

  All-insert_by : (P : A → Type 0) (x : A) (ys : List A) → P x → All P ys → All P (insert_by x ys)
  unfolding insert_by
  All-insert_by P x [] p h = (p, tt)
  All-insert_by P x (y ∷ ys) p h = ground (arith, All-insert_by P x ys p h.1)

  pub All-order_by : (P : A → Type 0) (xs : List A) → All P xs → All P (order_by xs)
  unfolding order_by
  All-order_by P [] h = tt
  All-order_by P (x ∷ xs) h = All-insert_by P x (order_by xs) h.0 (All-order_by P xs h.1)

  insert_by-IsOrdered : (x : A) (ys : List A) → IsOrdered ys → IsOrdered (insert_by x ys)
  unfolding insert_by
  insert_by-IsOrdered x [] h = (tt, tt)
  insert_by-IsOrdered x (y ∷ ys) h = elim (Bool-cases (leb (key x) (key y))) [
    | inl e ↦ rw e ((ground arith, All-implies _ _ ys (λ z p. ground arith) h.0), h)
    | inr e ↦
        rw e
          (All-insert_by (λ z. key y ≤ key z) x ys (ground arith) h.0, insert_by-IsOrdered x ys h.1)
  ]

  pub order_by-IsOrdered : (xs : List A) → IsOrdered (order_by xs)
  unfolding order_by
  order_by-IsOrdered [] = tt
  order_by-IsOrdered (x ∷ xs) = insert_by-IsOrdered x (order_by xs) (order_by-IsOrdered xs)

  pub take-IsOrdered : (n : ℕ) (xs : List A) → IsOrdered xs → IsOrdered (take n xs)
  take-IsOrdered zero xs h = tt
  take-IsOrdered (suc n) [] h = tt
  take-IsOrdered (suc n) (x ∷ xs) h = (take-All _ n xs h.0, take-IsOrdered n xs h.1)
