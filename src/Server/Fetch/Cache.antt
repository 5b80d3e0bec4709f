-- ===== src/Server/Fetch/Cache.antt =====
-- The negative cache: its keys, and how a failure keeps later requests from the API.
use warpbox_custom.Prelude.{
  ℕ, ◌+◌, ◌*◌, ◌≤◌, ◌<◌, ◌≡◌, refl, sym, ap, ◌∙◌, inl, inr, false, some, arith, Text, Lacks,
  cut_unique, format, format_injective, AllDigits-format, digits-Lacks, Result, err, Result-cases,
  lookup, delete, text_eq, text_eq_instance, lookup-insert_self, lookup-insert_ne, lookup-delete_ne,
  ltb, Option-cases, Bool-cases, lt→ltb, text_eq→eq, ◌⊎◌,
}
use warpbox_custom.Server.Config.{Config, second}
use warpbox_custom.Server.Fetch.Retry.{get_cdn_url_with_retry-Ends}
use warpbox_custom.Server.Breaker.{is_torrent_stale}
use warpbox_custom.Metadata.{FileSource, source_torrent, source_usenet}
use warpbox_custom.Server.Fetch.{
  source_name, cdn_cache_key, Entry, Caches, FetchTimes, Fetched, Tried, settle, fetch_uncached,
  fetch_cdn_url, get_cdn_url_with_retry,
}

source_name-Lacks : (s : FileSource) → Lacks b':' (source_name s)
source_name-Lacks source_torrent = (refl, (refl, (refl, (refl, (refl, (refl, (refl, tt)))))))
source_name-Lacks source_usenet = (refl, (refl, (refl, (refl, (refl, (refl, tt))))))

source_name_injective : (s t : FileSource) → source_name s ≡ source_name t → s ≡ t
source_name_injective source_torrent source_torrent e = refl
source_name_injective source_torrent source_usenet e = cc
source_name_injective source_usenet source_torrent e = cc
source_name_injective source_usenet source_usenet e = refl

format-Lacks : (n : ℕ) → Lacks b':' (format n)
format-Lacks n = digits-Lacks b':' (format n) refl (AllDigits-format n)

-- Different files have different keys.
cdn_cache_key_injective :
    (s s' : FileSource) (i i' f f' : ℕ)
    → cdn_cache_key s i f ≡ cdn_cache_key s' i' f'
    → (s ≡ s') × (i ≡ i') × (f ≡ f')
unfolding cdn_cache_key
cdn_cache_key_injective s s' i i' f f' e =
    let (names, rest) = cut_unique b':' _ _ _ _ (source_name-Lacks s) (source_name-Lacks s') e in
    let (items, files) = cut_unique b':' _ _ _ _ (format-Lacks i) (format-Lacks i') rest in
    (source_name_injective s s' names, format_injective i i' items, format_injective f f' files)

module _ (cfg : Config) (times : FetchTimes) (key : Text) (item : ℕ) where
  settle-outcome :
      (tried : Tried) (c : Caches)
      → ((settle cfg times tried key item c).outcome ≡ tried.outcome)
        × ((settle cfg times tried key item c).calls ≡ tried.calls)
  unfolding settle
  settle-outcome tried c = ground arith

  settle-caches :
      (tried : Tried) (c : Caches) (e : Text)
      → tried.outcome ≡ err e
      → lookup key (settle cfg times tried key item c).caches.negative_cache
        ≡ some (record {
          error = e;
          expires_at = times.at_caching + cfg.negative_cache_ttl_seconds * second;
        })
  unfolding settle
  settle-caches tried c e h = rw (h, settle) (lookup-insert_self key _ _)

  settle-other :
      (tried : Tried) (c : Caches) (other : Text)
      → text_eq key other ≡ false
      → lookup other (settle cfg times tried key item c).caches.negative_cache
        ≡ lookup other c.negative_cache
  unfolding settle
  settle-other tried c other d = elim (Result-cases tried.outcome) [
    | inl (url, h) ↦ elim (Bool-cases tried.failed) [
      | inl t ↦ rw (h, settle, t) refl
      | inr f ↦ rw (h, settle, f) refl
    ]
    | inr (e, h) ↦ elim (Bool-cases tried.failed) [
      | inl t ↦ rw (h, settle, t) (lookup-insert_ne key other _ c.negative_cache d)
      | inr f ↦ rw (h, settle, f) (lookup-insert_ne key other _ c.negative_cache d)
    ]
  ]

  module _ (api : ℕ → Result Text Text) (c : Caches) where
    -- Behind the negative cache: the breaker keeps the request from the API, or the retries settle it.
    uncached_cases :
        ((fetch_uncached cfg times api key item c).calls ≡ 0)
          × ((fetch_uncached cfg times api key item c).caches.negative_cache ≡ c.negative_cache)
        ⊎ (fetch_uncached cfg times api key item c
            ≡ settle cfg times (get_cdn_url_with_retry cfg api) key item (record c {
              torrent_failures = (is_torrent_stale times.at_breaker item c.torrent_failures).1;
            }))
    unfolding fetch_uncached
    uncached_cases =
        elim (Bool-cases (is_torrent_stale times.at_breaker item c.torrent_failures).0) [
          | inl t ↦ inl (rw (t, fetch_uncached) (refl, refl))
          | inr f ↦ inr (rw (f, fetch_uncached) refl)
        ]

    uncached-caches :
        (e : Text)
        → 0 < (fetch_uncached cfg times api key item c).calls
        → (fetch_uncached cfg times api key item c).outcome ≡ err e
        → lookup key (fetch_uncached cfg times api key item c).caches.negative_cache
          ≡ some (record {
            error = e;
            expires_at = times.at_caching + cfg.negative_cache_ttl_seconds * second;
          })
    uncached-caches e p h = elim uncached_cases [
      | inl stale ↦ absurd (omega (arith, stale.0))
      | inr q ↦ rw q (
          settle-caches _ _ e
            (sym (settle-outcome _ _).0 ∙ ap (λ (r : Fetched). r.outcome) (sym q) ∙ h))
    ]

    uncached-other :
        (other : Text)
        → text_eq key other ≡ false
        → lookup other (fetch_uncached cfg times api key item c).caches.negative_cache
          ≡ lookup other c.negative_cache
    uncached-other other d = elim uncached_cases [
      | inl stale ↦ ap (lookup other) stale.1
      | inr q ↦ rw q (settle-other _ _ other d)
    ]

    uncached-calls : (fetch_uncached cfg times api key item c).calls ≤ cfg.cdn_url_retry_count + 1
    uncached-calls = elim uncached_cases [
      | inl stale ↦ omega (arith, stale.0)
      | inr q ↦
          let ends = get_cdn_url_with_retry-Ends cfg api in
          rw (q, (settle-outcome _ _).1) (omega (arith, ends.counted, ends.bounded))
    ]

module _ (cfg : Config) (times : FetchTimes) (api : ℕ → Result Text Text) (s : FileSource)
    (item file : ℕ) (c : Caches) where
  fetch_hit :
      (entry : Entry)
      → lookup (cdn_cache_key s item file) c.negative_cache ≡ some entry
      → times.at_lookup < entry.expires_at
      → fetch_cdn_url cfg times api s item file c
        ≡ record { outcome = err entry.error; calls = 0; caches = c }
  unfolding fetch_cdn_url
  fetch_hit entry h l = rw (h, fetch_cdn_url, lt→ltb _ _ l) refl

  -- A fetch is answered by the negative cache, or goes on with at most its own entry removed.
  fetch_cases :
      ((fetch_cdn_url cfg times api s item file c).calls ≡ 0)
        × ((fetch_cdn_url cfg times api s item file c).caches ≡ c)
      ⊎ (fetch_cdn_url cfg times api s item file c
          ≡ fetch_uncached cfg times api (cdn_cache_key s item file) item c)
      ⊎ (fetch_cdn_url cfg times api s item file c
          ≡ fetch_uncached cfg times api
              (cdn_cache_key s item file)
              item
              (record c { negative_cache = delete (cdn_cache_key s item file) c.negative_cache }))
  unfolding fetch_cdn_url
  fetch_cases = elim (Option-cases (lookup (cdn_cache_key s item file) c.negative_cache)) [
    | inl h ↦ inr (inl (rw (h, fetch_cdn_url) refl))
    | inr (entry, h) ↦ elim (Bool-cases (ltb times.at_lookup entry.expires_at)) [
      | inl t ↦ inl (rw (h, fetch_cdn_url, t) (refl, refl))
      | inr f ↦ inr (inr (rw (h, fetch_cdn_url, f) refl))
    ]
  ]

  fetch-caches :
      (e : Text)
      → 0 < (fetch_cdn_url cfg times api s item file c).calls
      → (fetch_cdn_url cfg times api s item file c).outcome ≡ err e
      → lookup
          (cdn_cache_key s item file)
          (fetch_cdn_url cfg times api s item file c).caches.negative_cache
        ≡ some (record {
          error = e;
          expires_at = times.at_caching + cfg.negative_cache_ttl_seconds * second;
        })
  fetch-caches e p h = elim fetch_cases [
    | inl hit ↦ absurd (omega (arith, hit.0))
    | inr (inl q) ↦ rw q (uncached-caches cfg times _ item api c e (rw q at p) (rw q at h))
    | inr (inr q) ↦ rw q (uncached-caches cfg times _ item api _ e (rw q at p) (rw q at h))
  ]

  -- A fetch makes at most one call more than the configured number of retries.
  pub fetch_calls-le :
      (fetch_cdn_url cfg times api s item file c).calls ≤ cfg.cdn_url_retry_count + 1
  fetch_calls-le = elim fetch_cases [
    | inl hit ↦ omega (arith, hit.0)
    | inr (inl q) ↦ rw q (uncached-calls cfg times _ item api c)
    | inr (inr q) ↦ rw q (uncached-calls cfg times _ item api _)
  ]

  -- A fetch of one file leaves the negative cache's entry of every other file as it was.
  pub fetch_isolates :
      (s' : FileSource) (item' file' : ℕ)
      → ¬ ((s ≡ s') × (item ≡ item') × (file ≡ file'))
      → lookup
          (cdn_cache_key s' item' file')
          (fetch_cdn_url cfg times api s item file c).caches.negative_cache
        ≡ lookup (cdn_cache_key s' item' file') c.negative_cache
  fetch_isolates s' item' file' n = elim fetch_cases [
    | inl hit ↦ ap (λ (c' : Caches). lookup other c'.negative_cache) hit.1
    | inr (inl q) ↦ rw q (uncached-other cfg times key item api c other distinct)
    | inr (inr q) ↦
        rw q (uncached-other cfg times key item api _ other distinct)
        ∙ lookup-delete_ne key other c.negative_cache distinct
  ]
    where
      key : Text
      key = cdn_cache_key s item file

      other : Text
      other = cdn_cache_key s' item' file'

      distinct : text_eq key other ≡ false
      distinct = elim (Bool-cases (text_eq key other)) [
        | inl t ↦
            absurd (n (cdn_cache_key_injective s s' item item' file file' (text_eq→eq key other t)))
        | inr f ↦ f
      ]

-- After a fetch that called the API and failed, a fetch of the same file that starts before the
-- time to live has passed gives the same error, makes no call and changes nothing, whatever the
-- API would answer.
pub fetch_fails_fast :
    (cfg : Config) (times times' : FetchTimes) (api api' : ℕ → Result Text Text) (s : FileSource)
    (item file : ℕ) (c : Caches) (e : Text)
    → 0 < (fetch_cdn_url cfg times api s item file c).calls
    → (fetch_cdn_url cfg times api s item file c).outcome ≡ err e
    → times'.at_lookup < times.at_caching + cfg.negative_cache_ttl_seconds * second
    → let c' = (fetch_cdn_url cfg times api s item file c).caches in
      fetch_cdn_url cfg times' api' s item file c'
      ≡ record { outcome = err e; calls = 0; caches = c' }
fetch_fails_fast cfg times times' api api' s item file c e p h l =
    fetch_hit cfg times' api' s item file _ _ (fetch-caches cfg times api s item file c e p h) l
