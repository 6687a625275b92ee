-- ===== src/Api/Order.antt =====
-- `ORDER BY` as crates/api/src/routes/mod.rs uses it: by a time, up or down.
use mathlib.Core.List.{Perm, List, ◌∷◌}
use mathlib.Core.List.Perm
use wave_flow.Common.{
  ℕ, Bool, ◌≡◌, All, false, ltb, true, ◌∷◌, Bool-cases, [], arith, if◌then◌else◌, inl, inr,
}

pub data Direction : Type 0 where
  ascending : Direction
  descending : Direction

abbrev pub comes_before : {A : Type 0} → Direction → (A → ℕ) → A → A → Bool
comes_before ascending key a b = ltb (key a) (key b)
comes_before descending key a b = ltb (key b) (key a)

module _ {A : Type 0} (direction : Direction) (key : A → ℕ) where
  abbrev pub place : A → List A → List A
  place x [] = x ∷ []
  place x (y ∷ ys) =
      let rest = place x ys in if comes_before direction key y x then y ∷ rest else x ∷ y ∷ ys

  -- Rows of one time stay as the table has them.
  unfoldable pub order_by : List A → List A
  order_by [] = []
  order_by (x ∷ xs) = place x (order_by xs)

  abbrev NoneBefore : A → List A → Type 0
  NoneBefore x ys = All (λ y. comes_before direction key y x ≡ false) ys

  -- No row comes before one that stands ahead of it.
  abbrev pub IsOrdered : List A → Type 0
  IsOrdered [] = Unit
  IsOrdered (x ∷ xs) = NoneBefore x xs × IsOrdered xs

turned :
    {A : Type 0} (d : Direction) (key : A → ℕ) (a b : A)
    → comes_before d key a b ≡ true
    → comes_before d key b a ≡ false
turned ascending key a b h = ground arith
turned descending key a b h = ground arith

onward :
    {A : Type 0} (d : Direction) (key : A → ℕ) (a b c : A)
    → comes_before d key b a ≡ false
    → comes_before d key c b ≡ false
    → comes_before d key c a ≡ false
onward ascending key a b c h k = ground arith
onward descending key a b c h k = ground arith

module _ {A : Type 0} (d : Direction) (key : A → ℕ) where
  NoneBefore-place :
      (x y : A) (ys : List A)
      → comes_before d key x y ≡ false
      → NoneBefore d key y ys
      → NoneBefore d key y (place d key x ys)
  NoneBefore-place x y [] h n = (h, tt)
  NoneBefore-place x y (z ∷ zs) h n = elim (Bool-cases (comes_before d key z x)) [
    | inl e ↦ rw e (n.0, NoneBefore-place x y zs h n.1)
    | inr e ↦ rw e (h, n)
  ]

  NoneBefore-onward :
      (x y : A) (ys : List A)
      → comes_before d key y x ≡ false
      → NoneBefore d key y ys
      → NoneBefore d key x ys
  NoneBefore-onward x y [] h n = tt
  NoneBefore-onward x y (z ∷ zs) h n = (onward d key x y z h n.0, NoneBefore-onward x y zs h n.1)

  place-IsOrdered : (x : A) (ys : List A) → IsOrdered d key ys → IsOrdered d key (place d key x ys)
  place-IsOrdered x [] o = (tt, tt)
  place-IsOrdered x (y ∷ ys) o = elim (Bool-cases (comes_before d key y x)) [
    | inl e ↦ rw e (NoneBefore-place x y ys (turned d key y x e) o.0, place-IsOrdered x ys o.1)
    | inr e ↦ rw e ((e, NoneBefore-onward x y ys e o.0), o)
  ]

  place-perm : (x : A) (ys : List A) → Perm (place d key x ys) (x ∷ ys)
  place-perm x [] = Perm.rfl
  place-perm x (y ∷ ys) = elim (Bool-cases (comes_before d key y x)) [
    | inl e ↦ rw e (Perm.trans (Perm.cons y (place-perm x ys)) (Perm.swap x y ys))
    | inr e ↦ rw e Perm.rfl
  ]

  pub order_by-IsOrdered : (xs : List A) → IsOrdered d key (order_by d key xs)
  unfolding order_by
  order_by-IsOrdered [] = tt
  order_by-IsOrdered (x ∷ xs) = place-IsOrdered x (order_by d key xs) (order_by-IsOrdered xs)

  pub order_by-perm : (xs : List A) → Perm (order_by d key xs) xs
  unfolding order_by
  order_by-perm [] = Perm.rfl
  order_by-perm (x ∷ xs) =
      Perm.trans (place-perm x (order_by d key xs)) (Perm.cons x (order_by-perm xs))
