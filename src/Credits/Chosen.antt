-- ===== src/Credits/Chosen.antt =====
-- The selection rule of credits/credit-routing.service.ts and credits/credit-ledger.store.ts
-- chooses a best candidate.
use mathlib.Core.List.{append_assoc, append-nil}
use firecrawl_gateway.Prelude.{
  All, All-append, true, false, List, [], ◌∷◌, ◌++◌, Option, none, some, nat_eq, ◌≡◌, refl, sym,
  ◌∙◌, ap, arith, Bool-cases, inl, inr, subst,
}
use firecrawl_gateway.Credits.Selection.{
  Rank, better, same_rank, Choice, NotBetter, consider, consider_ranked, choose, ranked_as, having,
  NoneBetter, NoneRanked, IsBest,
}

module _ {ℓ} {A : Type ℓ} where
  ranked_as-true : (r s : Rank) (a : A) → same_rank s r ≡ true → ranked_as r a (some s) ≡ a ∷ []
  ranked_as-true r s a e = rw e refl

  ranked_as-false : (r s : Rank) (a : A) → same_rank s r ≡ false → ranked_as r a (some s) ≡ []
  ranked_as-false r s a e = rw e refl

  ranked_as_self : (r : Rank) (a : A) → ranked_as r a (some r) ≡ a ∷ []
  ranked_as_self r a = ranked_as-true r r a (ground arith)

  having-append :
      (rank : A → Option Rank) (r : Rank) (xs bs : List A)
      → having rank r (xs ++ bs) ≡ having rank r xs ++ having rank r bs
  having-append rank r [] bs = refl
  having-append rank r (a ∷ xs) bs =
      ap (λ l. ranked_as r a (rank a) ++ l) (having-append rank r xs bs)
      ∙ sym (append_assoc (ranked_as r a (rank a)) (having rank r xs) (having rank r bs))

  NoneBetter-append :
      (rank : A → Option Rank) (r : Rank) (xs bs : List A)
      → NoneBetter rank r xs
      → NoneBetter rank r bs
      → NoneBetter rank r (xs ++ bs)
  NoneBetter-append rank r [] bs h k = k
  NoneBetter-append rank r (a ∷ xs) bs h k = (h.0, NoneBetter-append rank r xs bs h.1 k)

  NoneRanked-append :
      (rank : A → Option Rank) (xs bs : List A)
      → NoneRanked rank xs
      → NoneRanked rank bs
      → NoneRanked rank (xs ++ bs)
  NoneRanked-append rank [] bs h k = k
  NoneRanked-append rank (a ∷ xs) bs h k = (h.0, NoneRanked-append rank xs bs h.1 k)

  -- A rank that beats the best beats all that the best did.
  better-head :
      (o : Option Rank) (r s : Rank) (a : A)
      → better s r ≡ true
      → NotBetter r o
      → NotBetter s o × (ranked_as s a o ≡ [])
  better-head none r s a b h = (tt, refl)
  better-head (some q) r s a b h = ground arith

  NoneBetter-mono :
      (rank : A → Option Rank) (r s : Rank) (xs : List A)
      → better s r ≡ true
      → NoneBetter rank r xs
      → NoneBetter rank s xs × (having rank s xs ≡ [])
  NoneBetter-mono rank r s [] b h = (tt, refl)
  NoneBetter-mono rank r s (a ∷ xs) b h =
      let (p, q) = better-head (rank a) r s a b h.0 in
      let (u, v) = NoneBetter-mono rank r s xs b h.1 in
      ((p, u), ap (λ l. l ++ having rank s xs) q ∙ v)

  NoneRanked-having :
      (rank : A → Option Rank) (r : Rank) (xs : List A)
      → NoneRanked rank xs
      → NoneBetter rank r xs × (having rank r xs ≡ [])
  NoneRanked-having rank r [] h = (tt, refl)
  NoneRanked-having rank r (a ∷ xs) h =
      rw h.0 (let (u, v) = NoneRanked-having rank r xs h.1 in ((tt, u), v))

  NoneBetter-snoc :
      (rank : A → Option Rank) (r : Rank) (xs : List A) (x : A) (o : Option Rank)
      → rank x ≡ o
      → NoneBetter rank r xs
      → NotBetter r o
      → NoneBetter rank r (xs ++ x ∷ [])
  NoneBetter-snoc rank r xs x o e h k =
      NoneBetter-append rank r xs (x ∷ []) h (subst (NotBetter r) (sym e) k, tt)

  having-snoc :
      (rank : A → Option Rank) (r : Rank) (xs : List A) (x : A) (o : Option Rank)
      → rank x ≡ o
      → having rank r (xs ++ x ∷ []) ≡ having rank r xs ++ ranked_as r x o
  having-snoc rank r xs x o e =
      having-append rank r xs (x ∷ [])
      ∙ ap (λ l. having rank r xs ++ l) (append-nil (ranked_as r x (rank x)) ∙ ap (ranked_as r x) e)

  -- The first candidate with a rank, and one that beats the best: both restart the list of ties.
  restart-IsBest :
      (rank : A → Option Rank) (x : A) (r : Rank) (xs : List A)
      → rank x ≡ some r
      → NoneBetter rank r xs × (having rank r xs ≡ [])
      → IsBest rank (xs ++ x ∷ []) (some (record { best = r; ties = x ∷ [] }))
  restart-IsBest rank x r xs e h = (
    NoneBetter-snoc rank r xs x (some r) e h.0 (ground arith),
    sym (
        having-snoc rank r xs x (some r) e
        ∙ ap (λ l. l ++ ranked_as r x (some r)) h.1
        ∙ ranked_as_self r x),
    x,
    [],
    refl,
  )

  tie-IsBest :
      (rank : A → Option Rank) (x : A) (r : Rank) (xs : List A) (c : Choice A)
      → rank x ≡ some r
      → better r c.best ≡ false
      → same_rank r c.best ≡ true
      → IsBest rank xs (some c)
      → IsBest rank (xs ++ x ∷ []) (some (record c { ties = c.ties ++ x ∷ [] }))
  tie-IsBest rank x r xs c e b t (h, k, a, rest, q) = (
    NoneBetter-snoc rank c.best xs x (some r) e h b,
    sym (
        having-snoc rank c.best xs x (some r) e
        ∙ ap (λ l. l ++ ranked_as c.best x (some r)) (sym k)
        ∙ ap (λ l. c.ties ++ l) (ranked_as-true c.best r x t)),
    a,
    rest ++ x ∷ [],
    ap (λ l. l ++ x ∷ []) q,
  )

  pass-IsBest :
      (rank : A → Option Rank) (x : A) (o : Option Rank) (xs : List A) (c : Choice A)
      → rank x ≡ o
      → NotBetter c.best o
      → ranked_as c.best x o ≡ []
      → IsBest rank xs (some c)
      → IsBest rank (xs ++ x ∷ []) (some c)
  pass-IsBest rank x o xs c e b t (h, k, a, rest, q) = (
    NoneBetter-snoc rank c.best xs x o e h b,
    k
        ∙ sym (
            having-snoc rank c.best xs x o e
            ∙ ap (λ l. having rank c.best xs ++ l) t
            ∙ append-nil (having rank c.best xs)),
    a,
    rest,
    q,
  )

  consider_ranked-IsBest :
      (rank : A → Option Rank) (x : A) (o : Option Rank) (xs : List A) (c : Option (Choice A))
      → rank x ≡ o
      → IsBest rank xs c
      → IsBest rank (xs ++ x ∷ []) (consider_ranked x o c)
  unfolding consider
  consider_ranked-IsBest rank x none xs none e h =
      (NoneRanked-append rank xs (x ∷ []) h.0 (e, tt), tt)
  consider_ranked-IsBest rank x none xs (some c) e h = pass-IsBest rank x none xs c e tt refl h
  consider_ranked-IsBest rank x (some r) xs none e h =
      restart-IsBest rank x r xs e (NoneRanked-having rank r xs h.0)
  consider_ranked-IsBest rank x (some r) xs (some c) e h = elim (Bool-cases (better r c.best)) [
    | inl b ↦ rw b (restart-IsBest rank x r xs e (NoneBetter-mono rank c.best r xs b h.0))
    | inr b ↦ elim (Bool-cases (same_rank r c.best)) [
      | inl t ↦ rw (b, t) (tie-IsBest rank x r xs c e b t h)
      | inr t ↦ rw (b, t) (pass-IsBest rank x (some r) xs c e b (ranked_as-false c.best r x t) h)
    ]
  ]

  choose-IsBest :
      (rank : A → Option Rank) (xs ys : List A) (c : Option (Choice A))
      → IsBest rank xs c
      → IsBest rank (xs ++ ys) (choose rank ys c)
  unfolding choose
  choose-IsBest rank xs [] c h = subst (λ l. IsBest rank l c) (sym (append-nil xs)) h
  choose-IsBest rank xs (y ∷ ys) c h =
      subst (λ l. IsBest rank l (choose rank (y ∷ ys) c)) (append_assoc xs (y ∷ []) ys)
        (choose-IsBest rank (xs ++ y ∷ []) ys (consider_ranked y (rank y) c)
          (consider_ranked-IsBest rank y (rank y) xs c refl h))

  -- The loop over all candidates.
  pub chosen-IsBest : (rank : A → Option Rank) (xs : List A) → IsBest rank xs (choose rank xs none)
  chosen-IsBest rank xs = choose-IsBest rank [] xs none (tt, tt)

module _ {ℓ κ} {A : Type ℓ} (P : A → Type κ) (rank : A → Option Rank) where
  ranked_as-All : (r : Rank) (a : A) (o : Option Rank) → P a → All P (ranked_as r a o)
  ranked_as-All r a none h = tt
  ranked_as-All r a (some s) h = elim (Bool-cases (same_rank s r)) [
    | inl e ↦ rw e (h, tt)
    | inr e ↦ rw e tt
  ]

  -- Whatever holds of all candidates holds of those with a given rank.
  pub having-All : (r : Rank) (xs : List A) → All P xs → All P (having rank r xs)
  having-All r [] h = tt
  having-All r (x ∷ xs) h =
      All-append P (ranked_as r x (rank x)) (having rank r xs) (ranked_as-All r x (rank x) h.0)
        (having-All r xs h.1)
