-- ===== src/Base/Sorting.antt =====
-- `sort.Sort`: what it promises of a `Less`, and insertion sort as one function that keeps it.
use mathlib.Core.Path.{◌≡◌, refl, sym, subst}
use mathlib.Core.Bool.{Bool, true, false}
use mathlib.Core.Logic.{inl, inr}
use mathlib.Core.List.{List, [], ◌∷◌, Permᴰ}
use mathlib.Core.List.Permᴰ as PermD
use native.Mathlib.Omega.{arith}
use erie_canal_net.Base.Tests.{if◌then◌else◌, Bool-cases}
use erie_canal_net.Base.Lists.{All}

module _ {A : Type 0} (less : A → A → Bool) where
  -- A strict weak order on the elements with a property: elements that are not ordered are alike.
  pub record StrictWeak (P : A → Type 0) : Type 0 where
    pub irreflexive : (a : A) → P a → less a a ≡ false
    pub transitive :
        (a b c : A) → P a → P b → P c → less a b ≡ true → less b c ≡ true → less a c ≡ true
    pub alike :
        (a b c : A)
        → P a
        → P b
        → P c
        → less a b ≡ false
        → less b a ≡ false
        → less b c ≡ false
        → less c b ≡ false
        → less a c ≡ false

  -- No element is less than one before it.
  abbrev pub Ordered : List A → Type 0
  Ordered [] = Unit
  Ordered (x ∷ xs) = All (λ y. less y x ≡ false) xs × Ordered xs

  -- The same elements; in order, if `Less` is a strict weak order on them.
  pub record IsSort (sort : List A → List A) : Type 1 where
    pub permutes : (xs : List A) → Permᴰ (sort xs) xs
    pub orders : (P : A → Type 0) (xs : List A) → All P xs → StrictWeak P → Ordered (sort xs)

  unfoldable pub insert_sorted : A → List A → List A
  insert_sorted x [] = x ∷ []
  insert_sorted x (y ∷ ys) = if less x y then x ∷ y ∷ ys else y ∷ insert_sorted x ys

  unfoldable pub insertion_sort : List A → List A
  unfolding insert_sorted
  insertion_sort [] = []
  insertion_sort (x ∷ xs) = insert_sorted x (insertion_sort xs)

  insert_sorted-perm : (x : A) (ys : List A) → Permᴰ (insert_sorted x ys) (x ∷ ys)
  unfolding insert_sorted
  insert_sorted-perm x [] = Permᴰ.cons refl Permᴰ.nil
  insert_sorted-perm x (y ∷ ys) = elim (Bool-cases (less x y)) [
    | inl e ↦ rw e (PermD.refl (x ∷ y ∷ ys))
    | inr e ↦ rw e (Permᴰ.trans (Permᴰ.cons refl (insert_sorted-perm x ys)) (Permᴰ.swap refl refl))
  ]

  insertion_sort-perm : (xs : List A) → Permᴰ (insertion_sort xs) xs
  unfolding insertion_sort
  insertion_sort-perm [] = Permᴰ.nil
  insertion_sort-perm (x ∷ xs) =
      Permᴰ.trans (insert_sorted-perm x (insertion_sort xs))
        (Permᴰ.cons refl (insertion_sort-perm xs))

pub All-perm : {A : Type 0} (P : A → Type 0) (xs ys : List A) → Permᴰ xs ys → All P ys → All P xs
All-perm P [] [] Permᴰ.nil h = tt
All-perm P (x ∷ xs) (y ∷ ys) (Permᴰ.cons e p) h = (subst P (sym e) h.0, All-perm P xs ys p h.1)
All-perm P (x ∷ x' ∷ xs) (y ∷ y' ∷ ys) (Permᴰ.swap e f) h =
    (subst P (sym e) h.1.0, (subst P (sym f) h.0, h.1.1))
All-perm P xs zs (Permᴰ.trans {l₂ = ys} p q) h = All-perm P xs ys p (All-perm P ys zs q h)

module _ {A : Type 0} (less : A → A → Bool) (P : A → Type 0) (weak : StrictWeak less P) where
  above-All :
      (x y : A) (zs : List A)
      → P x
      → P y
      → All P zs
      → less x y ≡ true
      → All (λ z. less z y ≡ false) zs
      → All (λ z. less z x ≡ false) zs
  above-All x y [] px py pz lt h = tt
  above-All x y (z ∷ zs) px py pz lt h = (above, above-All x y zs px py pz.1 lt h.1)
    where
      above : less z x ≡ false
      above = elim (Bool-cases (less z x)) [
        | inl e ↦ absurd (ground (arith, weak.transitive z x y pz.0 px py e lt, h.0))
        | inr e ↦ e
      ]

  asymmetric : (x y : A) → P x → P y → less x y ≡ true → less y x ≡ false
  asymmetric x y px py lt = elim (Bool-cases (less y x)) [
    | inl e ↦ absurd (ground (arith, weak.transitive x y x px py px lt e, weak.irreflexive x px))
    | inr e ↦ e
  ]

  insert_sorted-Ordered :
      (x : A) (ys : List A)
      → P x
      → All P ys
      → Ordered less ys
      → Ordered less (insert_sorted less x ys)
  unfolding insert_sorted
  insert_sorted-Ordered x [] px py h = (tt, tt)
  insert_sorted-Ordered x (y ∷ ys) px py h = elim (Bool-cases (less x y)) [
    | inl e ↦ rw e ((asymmetric x y px py.0 e, above-All x y ys px py.0 py.1 e h.0), h)
    | inr e ↦ rw e (
      All-perm (λ z. less z y ≡ false) (insert_sorted less x ys) (x ∷ ys)
          (insert_sorted-perm less x ys) (e, h.0),
      insert_sorted-Ordered x ys px py.1 h.1,
    )
  ]

  insertion_sort-Ordered : (xs : List A) → All P xs → Ordered less (insertion_sort less xs)
  unfolding insertion_sort
  insertion_sort-Ordered [] h = tt
  insertion_sort-Ordered (x ∷ xs) h =
      insert_sorted-Ordered x (insertion_sort less xs) h.0
        (All-perm P (insertion_sort less xs) xs (insertion_sort-perm less xs) h.1)
        (insertion_sort-Ordered xs h.1)

pub insertion_sort-IsSort : {A : Type 0} (less : A → A → Bool) → IsSort less (insertion_sort less)
insertion_sort-IsSort less = record {
  permutes = insertion_sort-perm less;
  orders = λ P xs all weak. insertion_sort-Ordered less P weak xs all;
}
