-- ===== src/Prelude/OrderedMap.antt =====
-- JavaScript's `Map`: entries in the order in which their keys were first inserted.
use Prim.Native.Nat.{◌+◌, ◌≤◌}
use mathlib.Core.Path.{◌≡◌, refl}
use mathlib.Core.Bool.{Bool, true, false}
use mathlib.Core.Option.{Option, none, some}
use mathlib.Core.List.{List, [], ◌∷◌, ◌++◌}
use native.Mathlib.Omega.{arith}
use firecrawl_gateway.Prelude.Tests.{HasEq, ◌===◌, if◌then◌else◌}
use firecrawl_gateway.Prelude.Lists.{length}

module _ {ℓ κ} {K : Type ℓ} ⦃e : HasEq K⦄ {V : Type κ} where
  unfoldable pub get : K → List (K × V) → Option V
  get k [] = none
  get k ((j, v) ∷ m) = if j === k then some v else get k m

  -- An existing key keeps its place; a new one goes to the end.
  unfoldable pub set : K → V → List (K × V) → List (K × V)
  set k v [] = (k, v) ∷ []
  set k v ((j, w) ∷ m) = if j === k then (j, v) ∷ m else (j, w) ∷ set k v m

  unfoldable pub delete : K → List (K × V) → List (K × V)
  delete k [] = []
  delete k ((j, w) ∷ m) = if j === k then m else (j, w) ∷ delete k m

  unfoldable pub has : K → List (K × V) → Bool
  unfolding get
  has k m = elim (get k m) [ none ↦ false | some v ↦ true ]

  -- No key of `m` is `k`.
  abbrev pub Fresh : K → List (K × V) → Type 0
  Fresh k [] = Unit {0}
  Fresh k ((j, w) ∷ m) = ((j === k) ≡ false) × Fresh k m

  -- Every key has one entry.
  abbrev pub Distinct : List (K × V) → Type 0
  Distinct [] = Unit {0}
  Distinct ((j, w) ∷ m) = Fresh j m × Distinct m

  pub get-set :
      (k j : K) (v : V) (m : List (K × V))
      → get j (set k v m) ≡ (if k === j then some v else get j m)
  unfolding get set
  get-set k j v [] = refl
  get-set k j v ((i, w) ∷ m) =
      ground (arith, e.equal_iff k j, e.equal_iff i k, e.equal_iff i j, get-set k j v m)

  pub get-Fresh : (k : K) (m : List (K × V)) → Fresh k m → get k m ≡ none
  unfolding get
  get-Fresh k [] f = refl
  get-Fresh k ((j, w) ∷ m) f = ground (arith, get-Fresh k m)

  pub Fresh-get : (k : K) (m : List (K × V)) → get k m ≡ none → Fresh k m
  unfolding get
  Fresh-get k [] h = tt
  Fresh-get k ((j, w) ∷ m) h = ground (arith, Fresh-get k m)

  pub delete-Fresh : (k j : K) (m : List (K × V)) → Fresh j m → Fresh j (delete k m)
  unfolding delete
  delete-Fresh k j [] f = tt
  delete-Fresh k j ((i, w) ∷ m) f = ground (arith, delete-Fresh k j m f.1)

  pub delete-Distinct : (k : K) (m : List (K × V)) → Distinct m → Distinct (delete k m)
  unfolding delete
  delete-Distinct k [] d = tt
  delete-Distinct k ((i, w) ∷ m) d = ground (arith, delete-Fresh k i m d.0, delete-Distinct k m d.1)

  pub set-Fresh :
      (k j : K) (v : V) (m : List (K × V)) → (k === j) ≡ false → Fresh j m → Fresh j (set k v m)
  unfolding set
  set-Fresh k j v [] h f = (h, tt)
  set-Fresh k j v ((i, w) ∷ m) h f = ground (arith, set-Fresh k j v m h f.1)

  pub set-Distinct : (k : K) (v : V) (m : List (K × V)) → Distinct m → Distinct (set k v m)
  unfolding set
  set-Distinct k v [] d = (tt, tt)
  set-Distinct k v ((i, w) ∷ m) d =
      ground (arith, e.equal_iff k i, e.equal_iff i k, set-Fresh k i v m, set-Distinct k v m d.1)

  pub get-delete :
      (k j : K) (m : List (K × V))
      → Distinct m
      → get j (delete k m) ≡ (if k === j then none else get j m)
  unfolding get delete
  get-delete k j [] d = ground arith
  get-delete k j ((i, w) ∷ m) d = ground (
    arith,
    e.equal_iff k j,
    e.equal_iff i k,
    e.equal_iff i j,
    get-delete k j m d.1,
    get-Fresh i m d.0,
  )

  pub length-set : (k : K) (v : V) (m : List (K × V)) → length (set k v m) ≤ length m + 1
  unfolding set
  length-set k v [] = omega arith
  length-set k v ((i, w) ∷ m) = ground (arith, length-set k v m)

  pub length-delete : (k : K) (m : List (K × V)) → length (delete k m) ≤ length m
  unfolding delete
  length-delete k [] = omega arith
  length-delete k ((i, w) ∷ m) = ground (arith, length-delete k m)

  pub delete_absent : (k : K) (m : List (K × V)) → Fresh k m → delete k m ≡ m
  unfolding delete
  delete_absent k [] f = refl
  delete_absent k ((i, w) ∷ m) f = ground (arith, delete_absent k m f.1)

  pub set_absent : (k : K) (v : V) (m : List (K × V)) → Fresh k m → set k v m ≡ m ++ (k, v) ∷ []
  unfolding set
  set_absent k v [] f = refl
  set_absent k v ((i, w) ∷ m) f = ground (arith, set_absent k v m f.1)

  pub get-delete_other :
      (k j : K) (m : List (K × V)) → (k === j) ≡ false → get j (delete k m) ≡ get j m
  unfolding get delete
  get-delete_other k j [] h = refl
  get-delete_other k j ((i, w) ∷ m) h =
      ground (arith, e.equal_iff i k, e.equal_iff k j, e.equal_iff i j, get-delete_other k j m h)

  pub get-set_self : (k : K) (v : V) (m : List (K × V)) → get k (set k v m) ≡ some v
  get-set_self k v m = ground (arith, get-set k k v m, e.equal_iff k k)
