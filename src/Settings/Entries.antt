-- ===== src/Settings/Entries.antt =====
-- The Cloud keys that an update accepts (settings/settings.controller.ts).
use firecrawl_gateway.Prelude.{
  ◌≤◌, List, [], ◌∷◌, Option, none, some, length, nat_eq, ◌≡◌, refl, arith,
}
use firecrawl_gateway.Prelude.Text.{codes_eq}
use firecrawl_gateway.Prelude.Json.{Json, null, bool, num, str, arr, obj, Items, nil, cons}
use firecrawl_gateway.Common.{CloudKeyEntry}
use firecrawl_gateway.Settings.Update.{
  min_api_key_length, to_key_entry, to_key_entries, items_length, both,
}

abbrev pub AllLong : List CloudKeyEntry → Type 0
AllLong [] = Unit {0}
AllLong (e ∷ entries) = (min_api_key_length ≤ length e.key) × AllLong entries

to_key_entry-long :
    (item : Json) (e : CloudKeyEntry)
    → to_key_entry item ≡ some e
    → min_api_key_length ≤ length e.key
unfolding to_key_entry
to_key_entry-long (str key) e h = ground arith
to_key_entry-long (obj fields) e h = ground arith
to_key_entry-long (arr items) e h = absurd (ground arith)
to_key_entry-long null e h = absurd (ground arith)
to_key_entry-long (bool b) e h = absurd (ground arith)
to_key_entry-long (num n) e h = absurd (ground arith)

IsBoth : Option CloudKeyEntry → Option (List CloudKeyEntry) → List CloudKeyEntry → Type 0
IsBoth o rest entries =
    (e : CloudKeyEntry) × (es : List CloudKeyEntry) × (o ≡ some e)
    × (rest ≡ some es)
    × (entries ≡ e ∷ es)

both-IsBoth :
    (o : Option CloudKeyEntry) (rest : Option (List CloudKeyEntry)) (entries : List CloudKeyEntry)
    → both o rest ≡ some entries
    → IsBoth o rest entries
unfolding IsBoth
both-IsBoth none rest entries h = absurd (ground arith)
both-IsBoth (some e) none entries h = absurd (ground arith)
both-IsBoth (some e) (some es) entries h = (e, es, refl, refl, ground arith)

pub to_key_entries_lem :
    (items : Items) (entries : List CloudKeyEntry)
    → to_key_entries items ≡ some entries
    → (length entries ≡ items_length items) × AllLong entries
unfolding to_key_entries IsBoth
to_key_entries_lem nil [] h = (refl, tt)
to_key_entries_lem nil (e ∷ entries) h = cc
to_key_entries_lem (cons item items) entries h =
    let (e, es, head, rest, same) =
      both-IsBoth (to_key_entry item) (to_key_entries items) entries h in
    let (count, long) = to_key_entries_lem items es rest in
    rw same (omega (arith, count), (to_key_entry-long item e head, long))
