-- ===== src/Prelude/Sets.antt =====
-- JavaScript's `Set`: a list without repetition, in the order of insertion.
use mathlib.Core.Path.{◌≡◌, subst}
use mathlib.Core.Bool.{Bool, true, false, not, ◌&&◌, ◌||◌}
use mathlib.Core.Logic.{inl, inr}
use mathlib.Core.List.{List, [], ◌∷◌, ◌++◌}
use native.Mathlib.Omega.{arith}
use firecrawl_gateway.Prelude.Tests.{Bool-cases, HasEq, ◌===◌, if◌then◌else◌}

module _ {ℓ} {A : Type ℓ} ⦃e : HasEq A⦄ where
  unfoldable pub contains : A → List A → Bool
  contains a [] = false
  contains a (x ∷ xs) = (x === a) || contains a xs

  unfoldable pub add : A → List A → List A
  unfolding contains
  add a xs = if contains a xs then xs else xs ++ a ∷ []

  unfoldable pub remove : A → List A → List A
  remove a [] = []
  remove a (x ∷ xs) = if x === a then remove a xs else x ∷ remove a xs

  pub contains_snoc :
      (b a : A) (xs : List A) → contains b (xs ++ a ∷ []) ≡ (contains b xs || (a === b))
  unfolding contains
  contains_snoc b a [] = ground arith
  contains_snoc b a (x ∷ xs) = ground (arith, contains_snoc b a xs)

  pub contains_self : (a : A) (xs : List A) → contains a (add a xs) ≡ true
  unfolding add
  contains_self a xs = ground (arith, contains_snoc a a xs, e.equal_iff a a)

  pub contains-add : (b a : A) (xs : List A) → contains b xs ≡ true → contains b (add a xs) ≡ true
  unfolding add
  contains-add b a xs h = ground (arith, contains_snoc b a xs)

  pub contains-remove :
      (b a : A) (xs : List A) → contains b (remove a xs) ≡ (contains b xs && not (a === b))
  unfolding contains remove
  contains-remove b a [] = ground arith
  contains-remove b a (x ∷ xs) =
      ground (arith, contains-remove b a xs, e.equal_iff x a, e.equal_iff x b, e.equal_iff a b)

  contains_equal :
      (b a : A) (xs : List A) → (a === b) ≡ true → contains a xs ≡ true → contains b xs ≡ true
  contains_equal b a xs h k = subst (λ c. contains c xs ≡ true) ((e.equal_iff a b).0 h) k

  pub contains-add_iff :
      (b a : A) (xs : List A) → contains b (add a xs) ≡ (contains b xs || (a === b))
  unfolding add
  contains-add_iff b a xs = elim (Bool-cases (contains a xs)) [
    | inl h ↦ rw h (elim (Bool-cases (a === b)) [
      | inl k ↦ ground (arith, k, contains_equal b a xs k h)
      | inr k ↦ ground (arith, k)
    ])
    | inr h ↦ rw h (contains_snoc b a xs)
  ]
