-- ===== src/Ledger/Choosing.antt =====
-- The pool that RESERVE_SCRIPT of credits/credit-ledger.store.ts selects.
use mathlib.Core.Option.{some-injective}
use mathlib.Core.List.{append_assoc}
use firecrawl_gateway.Prelude.{
  length-append, ◌++◌, ℕ, ◌+◌, false, List, [], ◌∷◌, Option, none, some, ◌≡◌, refl, sym, ap, ◌∙◌,
  subst, arith, length, get_elem?, All, All-get_elem, Bool-cases, inl, inr,
}
use firecrawl_gateway.Prelude.Text.{Text}
use firecrawl_gateway.Credits.{LedgerReserveResult, reserved, no_capacity, unavailable}
use firecrawl_gateway.Credits.Selection.{Choice, choose, NoneRanked, IsBest}
use firecrawl_gateway.Credits.Chosen.{chosen-IsBest, having-All}
use firecrawl_gateway.Credits.Ties.{IsBestOf, ties-IsBestOf}
use firecrawl_gateway.Ledger.{
  Ledger, ledger_rank, numbered, some_initialized, tie_or_first, select_tie, reserve_selected,
  ledger_reserve,
}

-- A candidate stands where its number says.
abbrev pub StandsIn : List Text → ℕ × Text → Type 0
StandsIn ids c = get_elem? ids c.0 ≡ some c.1

tie_or_first-All :
    (P : ℕ × Text → Type 0) (name : ℕ → Text) (pick : ℕ → ℕ) (o : Option (ℕ × Text))
    (ties : List (ℕ × Text)) (a : ℕ × Text)
    → ((c : ℕ × Text) → o ≡ some c → P c)
    → All P ties
    → tie_or_first name pick o ties ≡ some a
    → P a
tie_or_first-All P name pick (some c) ties a h k e = subst P (some-injective c a e) (h c refl)
tie_or_first-All P name pick none [] a h k e = ground (arith, e)
tie_or_first-All P name pick none (c ∷ ties) a h k e = subst P (some-injective c a e) k.0

get_elem?-behind :
    (pre ids : List Text) (id : Text) → get_elem? (pre ++ id ∷ ids) (length pre) ≡ some id
get_elem?-behind [] ids id = refl
get_elem?-behind (p ∷ pre) ids id = get_elem?-behind pre ids id

numbered-StandsIn : (pre ids : List Text) → All (StandsIn (pre ++ ids)) (numbered (length pre) ids)
unfolding numbered
numbered-StandsIn pre [] = tt
numbered-StandsIn pre (id ∷ ids) = (
  get_elem?-behind pre ids id,
  subst (λ l. All (StandsIn l) (numbered (length pre + 1) ids)) (append_assoc pre (id ∷ []) ids)
      (subst (λ n. All (StandsIn ((pre ++ id ∷ []) ++ ids)) (numbered n ids))
        (omega (arith, length-append pre (id ∷ []))) (numbered-StandsIn (pre ++ id ∷ []) ids)),
)

All-both :
    (P Q : ℕ × Text → Type 0) (xs : List (ℕ × Text)) → All P xs → All Q xs → All (λ c. P c × Q c) xs
All-both P Q [] h k = tt
All-both P Q (x ∷ xs) h k = ((h.0, k.0), All-both P Q xs h.1 k.1)

-- What the script says of the candidates.
abbrev pub LedgerChoice : ℕ → ℕ → Ledger → List Text → LedgerReserveResult → Type 0
LedgerChoice now amount l ids unavailable = some_initialized ids l ≡ false
LedgerChoice now amount l ids no_capacity = NoneRanked (ledger_rank now amount l) (numbered 0 ids)
LedgerChoice now amount l ids (reserved index name) =
    (id : Text) × IsBestOf (ledger_rank now amount l) (numbered 0 ids) (index, id)
    × (get_elem? ids index ≡ some id)

module _ (name : ℕ → Text) (pick : ℕ → ℕ) (now amount : ℕ) (l : Ledger) (ids : List Text) where
  reserve_selected-LedgerChoice :
      (o : Option (ℕ × Text))
      → ((c : ℕ × Text)
          → o ≡ some c
          → IsBestOf (ledger_rank now amount l) (numbered 0 ids) c × StandsIn ids c)
      → (o ≡ none → NoneRanked (ledger_rank now amount l) (numbered 0 ids))
      → LedgerChoice now amount l ids (reserve_selected name pick amount l o).0
  reserve_selected-LedgerChoice none h k = k refl
  reserve_selected-LedgerChoice (some c) h k = (c.1, (h c refl).0, (h c refl).1)

  select_tie-best :
      (o : Option (Choice (ℕ × Text))) (c : ℕ × Text)
      → IsBest (ledger_rank now amount l) (numbered 0 ids) o
      → select_tie name pick o ≡ some c
      → IsBestOf (ledger_rank now amount l) (numbered 0 ids) c × StandsIn ids c
  select_tie-best none c b e = ground (arith, e)
  select_tie-best (some t) c b e =
      let P =
        λ (x : ℕ × Text). IsBestOf (ledger_rank now amount l) (numbered 0 ids) x × StandsIn ids x in
      let all =
        All-both (IsBestOf (ledger_rank now amount l) (numbered 0 ids)) (StandsIn ids) t.ties
          (ties-IsBestOf (ledger_rank now amount l) (numbered 0 ids) t b)
          (subst (All (StandsIn ids)) (sym b.1) (
            having-All (StandsIn ids) (ledger_rank now amount l) t.best (numbered 0 ids)
              (numbered-StandsIn [] ids))) in
      tie_or_first-All P name pick (get_elem? t.ties (pick (length t.ties))) t.ties c
        (λ x q. All-get_elem P t.ties (pick (length t.ties)) x all q) all e

  tie_or_first-none :
      (o : Option (ℕ × Text)) (a : ℕ × Text) (rest : List (ℕ × Text))
      → (x : ℕ × Text) × (tie_or_first name pick o (a ∷ rest) ≡ some x)
  tie_or_first-none none a rest = (a, refl)
  tie_or_first-none (some c) a rest = (c, refl)

  select_tie-none :
      (o : Option (Choice (ℕ × Text)))
      → IsBest (ledger_rank now amount l) (numbered 0 ids) o
      → select_tie name pick o ≡ none
      → NoneRanked (ledger_rank now amount l) (numbered 0 ids)
  select_tie-none none b e = b.0
  select_tie-none (some t) (h, k, a, rest, q) e =
      let (x, f) = tie_or_first-none (get_elem? t.ties (pick (length t.ties))) a rest in
      ground
        (arith, sym e ∙ ap (tie_or_first name pick (get_elem? t.ties (pick (length t.ties)))) q ∙ f)

  pub ledger_reserve-LedgerChoice :
      LedgerChoice now amount l ids (ledger_reserve name pick now ids amount l).0
  unfolding ledger_reserve
  ledger_reserve-LedgerChoice =
      let o = choose (ledger_rank now amount l) (numbered 0 ids) none in
      let b = chosen-IsBest (ledger_rank now amount l) (numbered 0 ids) in
      elim (Bool-cases (some_initialized ids l)) [
        | inl e ↦ rw e (
            reserve_selected-LedgerChoice (select_tie name pick o) (λ c q. select_tie-best o c b q)
              (λ q. select_tie-none o b q))
        | inr e ↦ rw e e
      ]
