-- ===== src/Cache/Collected.antt =====
-- What `captureForCache` and `collectForCache` of apps/api/src/proxy/proxy.service.ts store.
use mathlib.Core.List.{append-nil, append_assoc}
use firecrawl_gateway.Prelude.{
  ℕ, ◌+◌, ◌≤◌, true, false, ◌&&◌, List, [], ◌∷◌, ◌++◌, Option, none, some, length, ltb, ◌===◌,
  nat_eq, ◌≡◌, ◌↔◌, ap, refl, sym, arith, Bool-cases, inl, inr, some-injective, subst, Option-cases,
  length-append, ◌∙◌, le→ltb_false, ltb_false→le,
}
use firecrawl_gateway.Prelude.Text.{Text, codes, codes_eq}
use firecrawl_gateway.Prelude.Json.{Json, null, bool, num, str, arr, obj, Fields, property}
use firecrawl_gateway.Common.{
  Backend, cloud, self_hosted, Response, ResultKind, response, network_error, ProxyResult,
}
use firecrawl_gateway.Proxy.Headers.{is_json_content_type}
use firecrawl_gateway.Cache.{CachedResponse, max_cached_entry_bytes}
use firecrawl_gateway.Cache.Lookup.{is_true}
use firecrawl_gateway.Cache.Collect.{
  Read, chunk, finished, broken, timed_out, collect, of_cloud, json_type, capture_type, succeeded,
  stored_body, capture_for_cache,
}

abbrev pub concat : List Text → Text
concat [] = []
concat (t ∷ ts) = t ++ concat ts

-- The reads are parts, then the end.
abbrev pub ends_after : List Text → List Read → List Read
ends_after [] rest = finished ∷ rest
ends_after (t ∷ ts) rest = chunk t ∷ ends_after ts rest

-- The reads reach the end with nothing before it but the parts of this body, which fits.
pub record IsWhole (reads : List Read) (acc : Text) (size : ℕ) (body : Text) : Type 0 where
  pub parts : List Text
  pub rest : List Read
  pub order : reads ≡ ends_after parts rest
  pub content : body ≡ acc ++ concat parts
  pub fits : size + length (concat parts) ≤ max_cached_entry_bytes

collect-IsWhole :
    (acc : Text) (size : ℕ) (reads : List Read) (body : Text)
    → size ≤ max_cached_entry_bytes
    → collect acc size reads ≡ some body
    → IsWhole reads acc size body
unfolding collect
collect-IsWhole acc size [] body b h = ground arith
collect-IsWhole acc size (broken ∷ reads) body b h = ground arith
collect-IsWhole acc size (timed_out ∷ reads) body b h = ground arith
collect-IsWhole acc size (finished ∷ reads) body b h = record {
  parts = [];
  rest = reads;
  order = refl;
  content = sym (some-injective acc body h) ∙ sym (append-nil acc);
  fits = omega (arith, b);
}
collect-IsWhole acc size (chunk value ∷ reads) body b h =
    elim (Bool-cases (ltb max_cached_entry_bytes (size + length value))) [
      | inl q ↦ let h' = rw (q, collect) at h in ground arith
      | inr q ↦
          let w =
            collect-IsWhole (acc ++ value) (size + length value) reads body
              (ltb_false→le max_cached_entry_bytes (size + length value) q)
              (rw (q, collect) at h) in
          record {
            parts = value ∷ w.parts;
            rest = w.rest;
            order = ap (λ r. chunk value ∷ r) w.order;
            content = w.content ∙ append_assoc acc value (concat w.parts);
            fits = omega (arith, w.fits, length-append value (concat w.parts));
          }
    ]

IsWhole-collect :
    (acc : Text) (size : ℕ) (parts : List Text) (rest : List Read)
    → size + length (concat parts) ≤ max_cached_entry_bytes
    → collect acc size (ends_after parts rest) ≡ some (acc ++ concat parts)
unfolding collect
IsWhole-collect acc size [] rest f = ap some (sym (append-nil acc))
IsWhole-collect acc size (t ∷ ts) rest f =
    let n = length-append t (concat ts) in
    let again = IsWhole-collect (acc ++ t) (size + length t) ts rest (omega (arith, f, n)) in
    rw
      (
        le→ltb_false (size + length t) max_cached_entry_bytes (omega (arith, f, n)),
        again,
        append_assoc acc t (concat ts),
      )
      refl

-- Whatever the reads are, a body is collected exactly if it is all of what came before the end of
-- the stream, with no error and no timeout before it, and it is at most as large as an entry.
pub collect_iff :
    (reads : List Read) (body : Text) → (collect [] 0 reads ≡ some body) ↔ IsWhole reads [] 0 body
collect_iff reads body = (
  collect-IsWhole [] 0 reads body (omega arith),
  λ w. rw (w.order, w.content) (IsWhole-collect [] 0 w.parts w.rest w.fits),
)

-- What may be stored: all of a body that fits and reports success, which the Cloud answered with
-- status 200 and a JSON content type.
pub record IsStorable (parse : Text → Option Json) (result : ProxyResult) (reads : List Read)
    (e : CachedResponse) : Type 0 where
  pub backend : result.backend ≡ cloud
  pub kind : result.kind ≡ response
  pub answer :
      (r : Response) × (result.response ≡ some r)
      × (r.status ≡ 200)
      × (r.content_type ≡ some e.content_type)
      × (is_json_content_type r.content_type ≡ true)
  pub status : e.status ≡ 200
  pub whole : IsWhole reads [] 0 e.body
  pub success :
      (fs : Fields) × (parse e.body ≡ some (obj fs))
      × (property (codes "success") fs ≡ some (bool true))

of_cloud_iff :
    (b : Backend) (k : ResultKind) (s : Option Text)
    → of_cloud b k s ≡ true
    → (b ≡ cloud) × (k ≡ response)
of_cloud_iff cloud response (some s) h = (refl, refl)
of_cloud_iff cloud response none h = ground arith
of_cloud_iff cloud network_error s h = ground arith
of_cloud_iff self_hosted k s h = ground arith

json_type-some :
    (o : Option Response) (t : Text)
    → json_type o ≡ some t
    → (r : Response) × (o ≡ some r)
      × (r.status ≡ 200)
      × (r.content_type ≡ some t)
      × (is_json_content_type r.content_type ≡ true)
json_type-some none t h = ground arith
json_type-some (some r) t h =
    elim (Bool-cases (r.status === 200 && is_json_content_type r.content_type)) [
      | inl q ↦ (r, refl, ground arith, rw q at h, ground arith)
      | inr q ↦ let h' = rw q at h in ground arith
    ]

is_true-some : (o : Option Json) → is_true o ≡ true → o ≡ some (bool true)
is_true-some (some (bool true)) h = refl
is_true-some none h = ground arith
is_true-some (some (bool false)) h = ground arith
is_true-some (some null) h = ground arith
is_true-some (some (num n)) h = ground arith
is_true-some (some (str t)) h = ground arith
is_true-some (some (arr xs)) h = ground arith
is_true-some (some (obj fs)) h = ground arith

succeeded-obj :
    (o : Option Json)
    → succeeded o ≡ true
    → (fs : Fields) × (o ≡ some (obj fs)) × (property (codes "success") fs ≡ some (bool true))
unfolding succeeded
succeeded-obj (some (obj fs)) h = (fs, refl, is_true-some (property (codes "success") fs) h)
succeeded-obj none h = ground arith
succeeded-obj (some null) h = ground arith
succeeded-obj (some (bool b)) h = ground arith
succeeded-obj (some (num n)) h = ground arith
succeeded-obj (some (str t)) h = ground arith
succeeded-obj (some (arr xs)) h = ground arith

capture_type-some :
    (result : ProxyResult) (t : Text)
    → capture_type result ≡ some t
    → (result.backend ≡ cloud)
      × (result.kind ≡ response)
      × (r : Response) × (result.response ≡ some r)
      × (r.status ≡ 200)
      × (r.content_type ≡ some t)
      × (is_json_content_type r.content_type ≡ true)
unfolding capture_type
capture_type-some result t h =
    elim (Bool-cases (of_cloud result.backend result.kind result.stream)) [
      | inl q ↦
          let (backend, kind) = of_cloud_iff result.backend result.kind result.stream q in
          let (r, is, status, type, json) =
            json_type-some result.response t (rw (q, capture_type) at h) in
          (backend, kind, r, is, status, type, json)
      | inr q ↦ let h' = rw (q, capture_type) at h in ground arith
    ]

stored_body-some :
    (parse : Text → Option Json) (content_type : Text) (o : Option Text) (e : CachedResponse)
    → stored_body parse content_type o ≡ some e
    → (e.status ≡ 200)
      × (e.content_type ≡ content_type)
      × (o ≡ some e.body)
      × (succeeded (parse e.body) ≡ true)
unfolding stored_body
stored_body-some parse content_type none e h = ground arith
stored_body-some parse content_type (some body) e h = elim (Bool-cases (succeeded (parse body))) [
  | inl q ↦
      let h' =
        some-injective
          (record { status = 200; content_type = content_type; body = body; stored_at = 0 }) e
          (rw (q, stored_body) at h) in
      (
        ap (λ x. x.status) (sym h'),
        ap (λ x. x.content_type) (sym h'),
        ap (λ x. some x.body) h',
        subst (λ x. succeeded (parse x) ≡ true) (ap (λ x. x.body) h') q,
      )
  | inr q ↦ let h' = rw (q, stored_body) at h in ground arith
]

-- Whatever the upstream answered and however its body was read, what is given to the cache is the
-- whole body, at most as large as an entry, of an answer of the Cloud with status 200 and a JSON
-- content type, which it keeps, and the body is an object whose field `success` is true.
pub capture_for_cache-IsStorable :
    (parse : Text → Option Json) (result : ProxyResult) (reads : List Read) (e : CachedResponse)
    → capture_for_cache parse result reads ≡ some e
    → IsStorable parse result reads e
unfolding capture_for_cache
capture_for_cache-IsStorable parse result reads e h = elim (Option-cases (capture_type result)) [
  | inl q ↦ let h' = rw (q, capture_for_cache) at h in ground arith
  | inr (content_type, q) ↦
      let (backend, kind, r, is, status, type, json) = capture_type-some result content_type q in
      let (ok, content, body, success) =
        stored_body-some parse content_type (collect [] 0 reads) e
          (rw (q, capture_for_cache) at h) in
      record {
        backend = backend;
        kind = kind;
        answer = (r, is, status, type ∙ ap some (sym content), json);
        status = ok;
        whole = collect-IsWhole [] 0 reads e.body (omega arith) body;
        success = succeeded-obj (parse e.body) success;
      }
]
