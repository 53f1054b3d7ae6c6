-- ===== src/Credits/Ties.antt =====
-- The ties of the selection rule, and the candidates of the best rank.
use firecrawl_gateway.Prelude.{
  true, List, [], ◌∷◌, Option, none, some, ◌≡◌, refl, sym, subst, All, All-append, Bool-cases, inl,
  inr,
}
use firecrawl_gateway.Credits.Selection.{
  Rank, Choice, same_rank, having, ranked_as, NoneBetter, IsBest,
}

module _ {ℓ} {A : Type ℓ} where
  abbrev pub HasRank : (A → Option Rank) → Rank → A → Type 0
  HasRank rank r c = (q : Rank) × (rank c ≡ some q) × (same_rank q r ≡ true)

  ranked_as-HasRank :
      (rank : A → Option Rank) (r : Rank) (c : A) (o : Option Rank)
      → rank c ≡ o
      → All (HasRank rank r) (ranked_as r c o)
  ranked_as-HasRank rank r c none e = tt
  ranked_as-HasRank rank r c (some q) e = elim (Bool-cases (same_rank q r)) [
    | inl t ↦ rw t ((q, e, t), tt)
    | inr t ↦ rw t tt
  ]

  having-HasRank :
      (rank : A → Option Rank) (r : Rank) (xs : List A) → All (HasRank rank r) (having rank r xs)
  having-HasRank rank r [] = tt
  having-HasRank rank r (x ∷ xs) =
      All-append (HasRank rank r) (ranked_as r x (rank x)) (having rank r xs)
        (ranked_as-HasRank rank r x (rank x) refl) (having-HasRank rank r xs)

  -- A candidate of the best rank, where no candidate has a better one.
  abbrev pub IsBestOf : (A → Option Rank) → List A → A → Type 0
  IsBestOf rank xs a = (r : Rank) × HasRank rank r a × NoneBetter rank r xs

  All-IsBestOf :
      (rank : A → Option Rank) (r : Rank) (xs ys : List A)
      → NoneBetter rank r xs
      → All (HasRank rank r) ys
      → All (IsBestOf rank xs) ys
  All-IsBestOf rank r xs [] n h = tt
  All-IsBestOf rank r xs (y ∷ ys) n h = ((r, h.0, n), All-IsBestOf rank r xs ys n h.1)

  pub ties-IsBestOf :
      (rank : A → Option Rank) (xs : List A) (c : Choice A)
      → IsBest rank xs (some c)
      → All (IsBestOf rank xs) c.ties
  ties-IsBestOf rank xs c b =
      All-IsBestOf rank c.best xs c.ties b.0
        (subst (All (HasRank rank c.best)) (sym b.1) (having-HasRank rank c.best xs))
