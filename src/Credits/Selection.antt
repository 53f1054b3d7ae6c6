-- ===== src/Credits/Selection.antt =====
-- The selection rule of credits/credit-routing.service.ts and credits/credit-ledger.store.ts: the
-- earliest renewal day first, then the most credits, and all that tie.
use firecrawl_gateway.Prelude.{
  ℕ, Bool, true, false, ◌&&◌, ◌||◌, List, [], ◌∷◌, ◌++◌, Option, none, some, ltb, ◌===◌, nat_eq,
  ◌≡◌, if◌then◌else◌,
}

-- A day, or `none` for a renewal that is not known, which comes last.
abbrev pub Day : Type 0
Day = Option ℕ

abbrev pub earlier : Day → Day → Bool
earlier none d = false
earlier (some m) none = true
earlier (some m) (some n) = ltb m n

abbrev pub same_day : Day → Day → Bool
same_day none none = true
same_day (some m) (some n) = m === n
same_day _ _ = false

-- `credits` is counted from 1, and 0 stands for the -1 of credits that are not known.
pub record Rank : Type 0 where
  pub day : Day
  pub credits : ℕ

abbrev pub better : Rank → Rank → Bool
better r s = earlier r.day s.day || same_day r.day s.day && ltb s.credits r.credits

abbrev pub same_rank : Rank → Rank → Bool
same_rank r s = same_day r.day s.day && r.credits === s.credits

-- `none` until a candidate was seen.
pub record Choice {ℓ} (A : Type ℓ) : Type ℓ where
  pub best : Rank
  pub ties : List A

abbrev pub NotBetter : Rank → Option Rank → Type 0
NotBetter r none = Unit {0}
NotBetter r (some s) = better s r ≡ false

module _ {ℓ} {A : Type ℓ} where
  unfoldable pub consider : A → Rank → Option (Choice A) → Option (Choice A)
  consider a r none = some (record { best = r; ties = a ∷ [] })
  consider a r (some c) =
      if better r c.best
      then some (record { best = r; ties = a ∷ [] })
      else if same_rank r c.best
      then some (record c { ties = c.ties ++ a ∷ [] })
      else some c

  abbrev pub consider_ranked : A → Option Rank → Option (Choice A) → Option (Choice A)
  consider_ranked a none c = c
  consider_ranked a (some r) c = consider a r c

  -- The loop; a candidate without a rank is passed over.
  unfoldable pub choose : (A → Option Rank) → List A → Option (Choice A) → Option (Choice A)
  unfolding consider
  choose rank [] c = c
  choose rank (a ∷ xs) c = choose rank xs (consider_ranked a (rank a) c)

  -- The candidates with a given rank, in order.
  abbrev pub ranked_as : Rank → A → Option Rank → List A
  ranked_as r a none = []
  ranked_as r a (some s) = if same_rank s r then a ∷ [] else []

  abbrev pub having : (A → Option Rank) → Rank → List A → List A
  having rank r [] = []
  having rank r (a ∷ xs) = ranked_as r a (rank a) ++ having rank r xs

  abbrev pub NoneBetter : (A → Option Rank) → Rank → List A → Type 0
  NoneBetter rank r [] = Unit {0}
  NoneBetter rank r (a ∷ xs) = NotBetter r (rank a) × NoneBetter rank r xs

  abbrev pub NoneRanked : (A → Option Rank) → List A → Type 0
  NoneRanked rank [] = Unit {0}
  NoneRanked rank (a ∷ xs) = (rank a ≡ none) × NoneRanked rank xs

  -- No candidate has a better rank than the chosen one, and the ties are exactly those that have
  -- it, of which there is at least one; nothing is chosen exactly if no candidate has a rank.
  abbrev pub IsBest : (A → Option Rank) → List A → Option (Choice A) → Type ℓ
  IsBest rank xs none = NoneRanked rank xs × Unit {ℓ}
  IsBest rank xs (some c) =
      NoneBetter rank c.best xs
      × (c.ties ≡ having rank c.best xs)
      × (a : A) × (rest : List A) × (c.ties ≡ a ∷ rest)
