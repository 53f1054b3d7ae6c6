-- ===== src/Reads/World.antt =====
-- Readers and writers of one database, in any order (api-keys/api-keys.service.ts,
-- settings/settings.service.ts). A write commits, and its caller invalidates the key afterwards;
-- in between other events may happen. A query reads the database at one moment.
use firecrawl_gateway.Prelude.{
  ℕ, suc, Bool, true, false, List, [], ◌∷◌, Option, none, some, HasEq, ◌===◌, nat_eq, if◌then◌else◌,
}
use firecrawl_gateway.Reads.{
  CacheStore, Reads, Found, starts, begin, finish, fail_request, invalidate, no_reads,
}

-- `stale` holds of a key whose write has been committed and not yet invalidated here. `answers` is
-- what the query of a request read.
pub record World {ℓ κ} (K : Type ℓ) (V : Type κ) : Type (ℓ ⊔ κ) where
  pub reads : Reads K V
  pub db : K → V
  pub stale : K → Bool
  pub next : ℕ
  pub key_of : ℕ → Option K
  pub answers : ℕ → Option V

pub data Event {ℓ κ} (K : Type ℓ) (V : Type κ) : Type (ℓ ⊔ κ) where
  calls : K → ℕ → Event K V
  queries : ℕ → Event K V
  settles : ℕ → ℕ → Event K V
  fails : ℕ → Event K V
  commits : K → V → Event K V
  invalidates : K → Event K V

module _ {ℓ κ} {K : Type ℓ} ⦃e : HasEq K⦄ {V : Type κ} (s : CacheStore K V) (ttl : ℕ) where
  abbrev pub after_call : K → World K V → Reads K V × Found V → World K V
  after_call k w (r, starts) = record w {
    reads = r;
    next = suc w.next;
    key_of = λ i. if w.next === i then some k else w.key_of i;
    answers = λ i. if w.next === i then none else w.answers i;
  }
  after_call k w (r, _) = record w { reads = r }

  -- The query of a request reads the row once.
  abbrev read_once : ℕ → World K V → Option K → Option V → Option V
  read_once i w _ (some v) = some v
  read_once i w none none = none
  read_once i w (some k) none = some (w.db k)

  abbrev settled : ℕ → ℕ → World K V → Option K → Option V → Reads K V
  settled i now w (some k) (some v) = finish s ttl k i v now w.reads
  settled i now w _ _ = w.reads

  abbrev failed : ℕ → World K V → Option K → Reads K V
  failed i w none = w.reads
  failed i w (some k) = fail_request k i w.reads

  unfoldable pub step : World K V → Event K V → World K V
  step w (calls k now) = after_call k w (begin k w.next now w.reads)
  step w (queries i) = record w {
    answers = λ j. if i === j then read_once i w (w.key_of i) (w.answers i) else w.answers j;
  }
  step w (settles i now) = record w { reads = settled i now w (w.key_of i) (w.answers i) }
  step w (fails i) = record w { reads = failed i w (w.key_of i) }
  step w (commits k v) = record w {
    db = λ j. if k === j then v else w.db j;
    stale = λ j. if k === j then true else w.stale j;
  }
  step w (invalidates k) = record w {
    reads = invalidate k w.reads;
    stale = λ j. if k === j then false else w.stale j;
  }

  unfoldable pub run : World K V → List (Event K V) → World K V
  run w [] = w
  run w (event ∷ events) = run (step w event) events

abbrev pub new_world {ℓ κ} : {K : Type ℓ} {V : Type κ} → (K → V) → World K V
new_world db = record {
  reads = no_reads;
  db = db;
  stale = λ k. false;
  next = 0;
  key_of = λ i. none;
  answers = λ i. none;
}
