-- ===== src/Cache/Sorting.antt =====
-- `sort` of `canonicalJson` (apps/api/src/proxy/response-cache.ts): the order of the keys.
use firecrawl_gateway.Prelude.{true, false, List, [], ◌∷◌, ◌===◌, ◌≡◌, refl, arith}
use firecrawl_gateway.Prelude.Text.{Text, codes_eq}
use firecrawl_gateway.Cache.Lookup.{text_ltb, insert_entry}

text_ltb-asym : (s t : Text) → text_ltb s t ≡ true → text_ltb t s ≡ false
unfolding text_ltb
text_ltb-asym s [] h = ground arith
text_ltb-asym [] (b ∷ t) h = ground arith
text_ltb-asym (a ∷ s) (b ∷ t) h = ground (arith, text_ltb-asym s t)

text_ltb-total : (s t : Text) → text_ltb s t ≡ false → text_ltb t s ≡ false → s ≡ t
unfolding text_ltb
text_ltb-total [] [] h g = refl
text_ltb-total (a ∷ s) [] h g = ground arith
text_ltb-total [] (b ∷ t) h g = ground arith
text_ltb-total (a ∷ s) (b ∷ t) h g = ground (arith, text_ltb-total s t)

-- From `a ≤ y` and `y < b`.
text_ltb_trans : (a y b : Text) → text_ltb y a ≡ false → text_ltb y b ≡ true → text_ltb a b ≡ true
unfolding text_ltb
text_ltb_trans a y [] h g = ground arith
text_ltb_trans [] y (c ∷ b) h g = refl
text_ltb_trans (d ∷ a) [] (c ∷ b) h g = ground arith
text_ltb_trans (d ∷ a) (e ∷ y) (c ∷ b) h g = ground (arith, text_ltb_trans a y b)

pub insert_entry_comm :
    (d e : Text × Text) (es : List (Text × Text))
    → (d.0 === e.0) ≡ false
    → insert_entry d (insert_entry e es) ≡ insert_entry e (insert_entry d es)
unfolding insert_entry
insert_entry_comm d e [] n =
    ground (arith, text_ltb-asym d.0 e.0, text_ltb-total d.0 e.0, codes_eq.equal_iff d.0 e.0)
insert_entry_comm d e (y ∷ es) n = ground (
  arith,
  insert_entry_comm d e es n,
  text_ltb-asym d.0 e.0,
  text_ltb-total d.0 e.0,
  codes_eq.equal_iff d.0 e.0,
  text_ltb_trans d.0 y.0 e.0,
  text_ltb_trans e.0 y.0 d.0,
)
