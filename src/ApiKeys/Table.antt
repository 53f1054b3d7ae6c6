-- ===== src/ApiKeys/Table.antt =====
-- What revoking a key does to the table (api-keys/api-keys.service.ts).
use firecrawl_gateway.Prelude.{
  false, List, [], ◌∷◌, ◌===◌, ◌≡◌, inl, inr, refl, arith, Bool-cases, if◌then◌else◌,
}
use firecrawl_gateway.Prelude.Text.{Text, codes_eq}
use firecrawl_gateway.ApiKeys.{ApiKeyRecord, find_valid, update_row, revoke, revoke_api_key}

-- No row has the id.
abbrev pub Unnamed : Text → List ApiKeyRecord → Type 0
Unnamed id [] = Unit {0}
Unnamed id (row ∷ rows) = ((row.id === id) ≡ false) × Unnamed id rows

-- No two rows have one id: it is the primary key. Two rows may have one hash.
abbrev pub UniqueIds : List ApiKeyRecord → Type 0
UniqueIds [] = Unit {0}
UniqueIds (row ∷ rows) = Unnamed row.id rows × UniqueIds rows

-- The rows with another id.
abbrev pub others : Text → List ApiKeyRecord → List ApiKeyRecord
others id [] = []
others id (row ∷ rows) = if row.id === id then others id rows else row ∷ others id rows

others-Unnamed : (id : Text) (rows : List ApiKeyRecord) → Unnamed id rows → others id rows ≡ rows
others-Unnamed id [] u = refl
others-Unnamed id (row ∷ rows) u = rw (u.0, others-Unnamed id rows u.1) refl

update_row-find_valid :
    (id hash : Text) (rows : List ApiKeyRecord)
    → UniqueIds rows
    → find_valid hash (update_row revoke id rows).0 ≡ find_valid hash (others id rows)
unfolding update_row find_valid
update_row-find_valid id hash [] u = refl
update_row-find_valid id hash (row ∷ rows) u = elim (Bool-cases (row.id === id)) [
  | inl e ↦ ground (arith, e, codes_eq.equal_iff row.id id, others-Unnamed row.id rows u.0)
  | inr e ↦ rw (e, update_row-find_valid id hash rows u.1) refl
]

-- Whatever the table holds, also where two keys have one hash: once a key has been revoked, what is
-- found under any hash is what the table without that key gives. So the key itself is found no
-- more, and every other key as before. No two keys have one id.
pub revoke_api_key-find_valid :
    (id hash : Text) (rows : List ApiKeyRecord)
    → UniqueIds rows
    → find_valid hash (revoke_api_key id rows).0 ≡ find_valid hash (others id rows)
unfolding revoke_api_key
revoke_api_key-find_valid id hash rows u = update_row-find_valid id hash rows u
