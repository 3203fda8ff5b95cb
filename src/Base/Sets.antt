-- ===== src/Base/Sets.antt =====
-- `mapset.Set` of github.com/deckarep/golang-set as an interface, with the laws that it documents,
-- and sets as lists without repetition as one implementation.
use mathlib.Core.Path.{◌≡◌, refl}
use mathlib.Core.Logic.{inl, inr}
use mathlib.Core.Bool.{Bool, true, false, ◌&&◌, ◌||◌}
use mathlib.Core.List.{List, [], ◌∷◌}
use native.Mathlib.Omega.{arith}
use erie_canal_net.Base.Tests.{Eq, ◌==◌, if◌then◌else◌, Bool-cases}
use erie_canal_net.Base.Lists.{any}

module _ {ℓ} {A : Type ℓ} ⦃e : Eq A⦄ where
  abbrev pub contains : A → List A → Bool
  contains a xs = any (λ x. x == a) xs

  abbrev pub Distinct : List A → Type ℓ
  Distinct [] = Unit
  Distinct (x ∷ xs) = (contains x xs ≡ false) × Distinct xs

  -- every element of `xs` is one of `ys`
  abbrev pub includes : List A → List A → Bool
  includes [] ys = true
  includes (x ∷ xs) ys = contains x ys && includes xs ys

-- `NewSet`, `Add`, `Iter` and `Equal`. `iter` lists the elements in the order of one iteration.
pub record SetOps {ℓ} (A : Type ℓ) ⦃e : Eq A⦄ : Type (ℓ + 1) where
  pub Set : Type ℓ
  pub new_set : Set
  pub add : A → Set → Set
  pub iter : Set → List A
  pub equal : Set → Set → Bool

-- An iteration visits each element once; `Add` adds the one element; `Equal` compares the elements.
pub record IsSetOps {ℓ} {A : Type ℓ} ⦃e : Eq A⦄ (S : SetOps A) : Type ℓ where
  pub iter-Distinct : (s : S.Set) → Distinct (S.iter s)
  pub contains-new_set : (a : A) → contains a (S.iter S.new_set) ≡ false
  pub contains-add :
      (a b : A) (s : S.Set) → contains b (S.iter (S.add a s)) ≡ (a == b || contains b (S.iter s))
  pub equal_lem :
      (s t : S.Set)
      → S.equal s t ≡ (includes (S.iter s) (S.iter t) && includes (S.iter t) (S.iter s))

module _ {ℓ} {A : Type ℓ} ⦃e : Eq A⦄ where
  abbrev pub without_repeats : List A → List A
  without_repeats [] = []
  without_repeats (x ∷ xs) =
      if contains x (without_repeats xs) then without_repeats xs else x ∷ without_repeats xs

  abbrev pub list_set : SetOps A
  list_set = record {
    Set = List A;
    new_set = [];
    add = ◌∷◌;
    iter = without_repeats;
    equal = λ s t.
        includes (without_repeats s) (without_repeats t)
        && includes (without_repeats t) (without_repeats s);
  }

  without_repeats-Distinct : (xs : List A) → Distinct (without_repeats xs)
  without_repeats-Distinct [] = tt
  without_repeats-Distinct (x ∷ xs) = elim (Bool-cases (contains x (without_repeats xs))) [
    | inl old ↦ rw old (without_repeats-Distinct xs)
    | inr new ↦ rw new (new, without_repeats-Distinct xs)
  ]

  contains_same :
      (a b : A) (xs : List A) → contains a xs ≡ true → (a == b) ≡ true → contains b xs ≡ true
  contains_same a b [] h k = ground arith
  contains_same a b (x ∷ xs) h k =
      ground (arith, e.test_iff a b, e.test_iff x a, e.test_iff x b, contains_same a b xs)

  contains-list_add :
      (a b : A) (s : List A)
      → contains b (without_repeats (a ∷ s)) ≡ (a == b || contains b (without_repeats s))
  contains-list_add a b s = ground (arith, contains_same a b (without_repeats s))

  pub list_set-IsSetOps : IsSetOps list_set
  list_set-IsSetOps = record {
    iter-Distinct = without_repeats-Distinct;
    contains-new_set = λ a. refl;
    contains-add = contains-list_add;
    equal_lem = λ s t. refl;
  }

  pub includes_refl : (xs : List A) → includes xs xs ≡ true
  includes_refl xs = keep xs xs (λ a h. h)
    where
      keep :
          (xs ys : List A)
          → ((a : A) → contains a xs ≡ true → contains a ys ≡ true)
          → includes xs ys ≡ true
      keep [] ys h = refl
      keep (x ∷ xs) ys h =
          ground (arith, h x, e.test_iff x x, keep xs ys (λ a k. h a (ground arith)))
