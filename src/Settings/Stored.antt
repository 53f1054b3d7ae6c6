-- ===== src/Settings/Stored.antt =====
-- What an update of the settings stores (settings/settings.controller.ts).
use mathlib.Core.Option.{some-injective}
use firecrawl_gateway.Prelude.{
  false, List, [], ◌∷◌, ◌++◌, Option, none, some, nat_eq, ◌≡◌, inl, inr, refl, subst, arith,
  Option-cases,
}
use firecrawl_gateway.Prelude.Text.{Text, codes_eq}
use firecrawl_gateway.Prelude.Json.{Json}
use firecrawl_gateway.Settings.Update.{
  SettingKey, setting_key, Platform, staged, before_rest, stage_all, update,
}
use firecrawl_gateway.Settings.Fields.{IsStorable, normalize-IsStorable}

before_rest-none : (key : Text) (o : Option Text) → before_rest key o none ≡ none
before_rest-none key none = refl
before_rest-none key (some value) = refl

stage_all_refuses :
    (p : Platform) (before after : List (Text × Json)) (key : Text) (raw : Json)
    → staged p (setting_key key) raw ≡ none
    → stage_all p (before ++ (key, raw) ∷ after) ≡ none
unfolding stage_all
stage_all_refuses p [] after key raw h = rw h
stage_all_refuses p ((k, v) ∷ before) after key raw h =
    rw (stage_all_refuses p before after key raw h)
      (before_rest-none k (staged p (setting_key k) v))

-- One field that is refused, wherever it stands among the others, makes the whole update fail with
-- nothing written.
pub update_refuses :
    (p : Platform) (before after : List (Text × Json)) (key : Text) (raw : Json)
    → staged p (setting_key key) raw ≡ none
    → update p (before ++ (key, raw) ∷ after) ≡ (false, [])
unfolding update
update_refuses p before after key raw h =
    rw (stage_all_refuses p before after key raw h, update) refl

-- A written setting has a key of the gateway's and a value that may stand there.
abbrev IsStorableUnder : Platform → Option SettingKey → Text → Type 0
IsStorableUnder p none value = ⊥
IsStorableUnder p (some key) value = IsStorable p key value

abbrev pub AllStorable : Platform → List (Text × Text) → Type 0
AllStorable p [] = Unit {0}
AllStorable p ((key, value) ∷ writes) =
    IsStorableUnder p (setting_key key) value × AllStorable p writes

staged-IsStorable :
    (p : Platform) (o : Option SettingKey) (raw : Json) (value : Text)
    → staged p o raw ≡ some value
    → IsStorableUnder p o value
staged-IsStorable p none raw value h = absurd (ground arith)
staged-IsStorable p (some key) raw value h = normalize-IsStorable p key raw value h

before_rest-AllStorable :
    (p : Platform) (key : Text) (o : Option Text) (rest : Option (List (Text × Text)))
    (writes : List (Text × Text))
    → ((value : Text) → o ≡ some value → IsStorableUnder p (setting_key key) value)
    → ((ws : List (Text × Text)) → rest ≡ some ws → AllStorable p ws)
    → before_rest key o rest ≡ some writes
    → AllStorable p writes
before_rest-AllStorable p key none rest writes v w h = absurd (ground arith)
before_rest-AllStorable p key (some value) none writes v w h = absurd (ground arith)
before_rest-AllStorable p key (some value) (some ws) writes v w h =
    subst (AllStorable p) (some-injective _ _ h) (v value refl, w ws refl)

stage_all-AllStorable :
    (p : Platform) (fields : List (Text × Json)) (writes : List (Text × Text))
    → stage_all p fields ≡ some writes
    → AllStorable p writes
unfolding stage_all
stage_all-AllStorable p [] writes h = subst (AllStorable p) (some-injective _ _ h) tt
stage_all-AllStorable p ((key, raw) ∷ fields) writes h =
    before_rest-AllStorable p key (staged p (setting_key key) raw) (stage_all p fields) writes
      (λ value e. staged-IsStorable p (setting_key key) raw value e)
      (λ ws e. stage_all-AllStorable p fields ws e) h

-- Whatever the admin sends, a setting is written only under a key of the gateway's and with a value
-- that its readers accept: a route mode, a whole number within the key's bound, a number of days, an
-- empty or well-formed chat id, no token or an encrypted well-formed one, and at most ten encrypted
-- Cloud keys of at least eight characters.
pub update-AllStorable :
    (p : Platform) (fields : List (Text × Json)) → AllStorable p (update p fields).1
unfolding update
update-AllStorable p fields = elim (Option-cases (stage_all p fields)) [
  | inl e ↦ rw (e, update) tt
  | inr (writes, e) ↦ rw (e, update) (stage_all-AllStorable p fields writes e)
]
