-- ===== src/Settings/SavedKeys.antt =====
-- From an update of the Cloud keys to their use (settings/settings.controller.ts,
-- settings/cloud-keys.ts).
use firecrawl_gateway.Prelude.{
  false, List, [], ◌∷◌, none, some, length, ◌===◌, nat_eq, ◌≡◌, ◌≤◌, refl, arith, Bool-cases, inl,
  inr, ltb,
}
use firecrawl_gateway.Prelude.Text.{Text, codes_beq, codes_eq}
use firecrawl_gateway.Prelude.Json.{arr, Items}
use firecrawl_gateway.Common.{CloudKeyEntry}
use firecrawl_gateway.Crypto.{encrypt_setting_value}
use firecrawl_gateway.Crypto.RoundTrip.{Colonless, IsCipher, decrypt-encrypt_setting_value}
use firecrawl_gateway.Settings.CloudKeys.{
  parsed, load_decrypted, load_cloud_key_entries, AllKeyed, serialize_cloud_key_entries,
  parse-serialize_cloud_key_entries,
}
use firecrawl_gateway.Settings.Update.{
  firecrawl_api_keys, min_api_key_length, max_cloud_api_keys, Platform, to_key_entries,
  items_length, stored_keys, normalize,
}
use firecrawl_gateway.Settings.Entries.{AllLong, to_key_entries_lem}

AllLong-AllKeyed : (entries : List CloudKeyEntry) → AllLong entries → AllKeyed entries
unfolding codes_beq
AllLong-AllKeyed [] v = tt
AllLong-AllKeyed (e ∷ entries) v = (long_key e.key v.0, AllLong-AllKeyed entries v.1)
  where
    long_key : (key : Text) → min_api_key_length ≤ length key → (key === []) ≡ false
    long_key [] h = absurd (omega arith)
    long_key (c ∷ t) h = refl

stored_keys-encrypt :
    (p : Platform) (items : Items) (entries : List CloudKeyEntry) (value : Text)
    → to_key_entries items ≡ some entries
    → normalize p firecrawl_api_keys (arr items) ≡ some value
    → encrypt_setting_value p.cipher p.iv
        (p.json.stringify (serialize_cloud_key_entries entries))
        p.key
      ≡ some value
unfolding normalize
stored_keys-encrypt p items entries value h e =
    elim (Bool-cases (ltb max_cloud_api_keys (items_length items))) [
      | inl b ↦ let g : none ≡ some value = (rw b at e) in cc
      | inr b ↦
          let g : stored_keys p (to_key_entries items) ≡ some value = (rw b at e) in (rw h at g)
    ]

-- The Cloud keys that an update accepts are the ones that are loaded from what it stores: the same
-- keys with the same roles in the same order, and the stored value needs no replacement. The JSON
-- text of the entries is read back as the value that it was written from.
pub load-normalize :
    (p : Platform) (items : Items) (entries : List CloudKeyEntry) (value iv : Text)
    → IsCipher p.cipher
    → Colonless p.iv
    → p.json.parse (p.json.stringify (serialize_cloud_key_entries entries))
      ≡ some (serialize_cloud_key_entries entries)
    → to_key_entries items ≡ some entries
    → normalize p firecrawl_api_keys (arr items) ≡ some value
    → load_cloud_key_entries p.cipher p.json iv p.key value ≡ (some entries, none)
unfolding load_cloud_key_entries
load-normalize p items entries value iv c k j h e =
    let text = p.json.stringify (serialize_cloud_key_entries entries) in
    let stored = stored_keys-encrypt p items entries value h e in
    let keyed = AllLong-AllKeyed entries (to_key_entries_lem items entries h).1 in
    rw (decrypt-encrypt_setting_value p.cipher p.iv text p.key value c k stored, load_decrypted)
      (rw (j, parsed) (rw (parse-serialize_cloud_key_entries entries keyed) refl))
