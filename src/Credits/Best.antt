-- ===== src/Credits/Best.antt =====
-- The local choice of credits/credit-routing.service.ts, `reserveLocally`.
use firecrawl_gateway.Prelude.{
  ℕ, zero, suc, ◌<◌, List, [], ◌∷◌, Option, none, some, ◌≡◌, refl, arith, length, get_elem?,
  All-get_elem,
}
use firecrawl_gateway.Credits.{
  CreditReservation, CreditRouting, Candidate, local_rank, PickLt, pick_tie, take_local,
  reserve_locally,
}
use firecrawl_gateway.Credits.Ties.{IsBestOf, ties-IsBestOf}
use firecrawl_gateway.Credits.Selection.{Rank, Choice, choose, NoneRanked, IsBest}
use firecrawl_gateway.Credits.Chosen.{chosen-IsBest}

pick_tie-IsBestOf :
    (rank : Candidate → Option Rank) (pick : ℕ → ℕ) (xs : List Candidate)
    (c : Option (Choice Candidate)) (a : Candidate)
    → IsBest rank xs c
    → pick_tie pick c ≡ some a
    → IsBestOf rank xs a
pick_tie-IsBestOf rank pick xs none a b e = ground arith
pick_tie-IsBestOf rank pick xs (some c) a b e =
    All-get_elem (IsBestOf rank xs) c.ties (pick (length c.ties)) a (ties-IsBestOf rank xs c b) e

get_elem?-some {ℓ} :
    {A : Type ℓ} (xs : List A) (n : ℕ) → n < length xs → (a : A) × (get_elem? xs n ≡ some a)
get_elem?-some [] n h = ground arith
get_elem?-some (x ∷ xs) zero h = (x, refl)
get_elem?-some (x ∷ xs) (suc n) h = get_elem?-some xs n (omega arith)

pick_tie-NoneRanked :
    (rank : Candidate → Option Rank) (pick : ℕ → ℕ) (xs : List Candidate)
    (c : Option (Choice Candidate))
    → PickLt pick
    → IsBest rank xs c
    → pick_tie pick c ≡ none
    → NoneRanked rank xs
pick_tie-NoneRanked rank pick xs none p b e = b.0
pick_tie-NoneRanked rank pick xs (some c) p (h, k, a, rest, q) e =
    let (x, g) =
      get_elem?-some c.ties (pick (length c.ties)) (p (length c.ties) (ground (arith, q))) in
    ground (arith, g)

-- What `reserveLocally` does with the candidates: the first result is what it returns.
abbrev pub LocalChoice : CreditRouting → ℕ → List Candidate → Option CreditReservation → Type 0
LocalChoice s now xs none = NoneRanked (local_rank s now) xs
LocalChoice s now xs (some r) =
    IsBestOf (local_rank s now) xs (record { key = r.key; key_id = r.key_id })

take_local-LocalChoice :
    (s : CreditRouting) (now amount : ℕ) (xs : List Candidate) (o : Option Candidate)
    → ((c : Candidate) → o ≡ some c → IsBestOf (local_rank s now) xs c)
    → (o ≡ none → NoneRanked (local_rank s now) xs)
    → LocalChoice s now xs (take_local amount s o).0
take_local-LocalChoice s now amount xs none h k = k refl
take_local-LocalChoice s now amount xs (some c) h k = h c refl

pub reserve_locally-LocalChoice :
    (pick : ℕ → ℕ) (now : ℕ) (xs : List Candidate) (amount : ℕ) (s : CreditRouting)
    → PickLt pick
    → LocalChoice s now xs (reserve_locally pick now xs amount s).0
unfolding reserve_locally
reserve_locally-LocalChoice pick now xs amount s p =
    let rank = local_rank s now in
    let b = chosen-IsBest rank xs in
    take_local-LocalChoice s now amount xs (pick_tie pick (choose rank xs none))
      (λ c q. pick_tie-IsBestOf rank pick xs (choose rank xs none) c b q)
      (λ q. pick_tie-NoneRanked rank pick xs (choose rank xs none) p b q)
