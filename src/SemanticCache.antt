-- ===== src/SemanticCache.antt =====
-- backend/app/services/semantic_cache.py: answers that were delivered, kept by the language and the
-- filters of their question, and found by the closeness of a new one.
pub mod Scoped
use pipe_line_gpt_backend.Prelude.{
  ℕ, zero, suc, ◌+◌, ◌*◌, String, Bool, true, false, not, ◌&&◌, ◌||◌, Option, none, some, List, [],
  ◌∷◌, ◌++◌, ◌≡◌, select, take, any, str_eq, ltb, leb, ◌==◌, ◌⊎◌, if◌then◌else◌, All,
}
use pipe_line_gpt_backend.Config.{Settings}
use pipe_line_gpt_backend.Models.{Ratio, ratio_lt}

-- query_cache:SCOPE:QUERY
pub record CacheKey : Type 0 where
  pub scope : String
  pub query_id : ℕ

abbrev pub same_key : CacheKey → CacheKey → Bool
same_key a b = str_eq a.scope b.scope && a.query_id == b.query_id

-- MAX_SCAN
abbrev pub max_scan : ℕ
max_scan = 2000

-- The keys of the cache in Redis, with what its documentation says: SCAN gives every key that is there,
-- SETEX and DEL change the keys
-- that they name, and a key holds what SETEX gave it until it expires. `Entry` is a value, which json.loads may refuse.
pub record CacheStore (Entry : Type 0) : Type 1 where
  pub Store : Type 0
  pub keys : Store → ℕ → List CacheKey
  pub get : Store → ℕ → CacheKey → Option (Option Entry)
  pub setex : Store → ℕ → CacheKey → ℕ → Entry → Store
  pub delete : Store → ℕ → List CacheKey → Store
  pub keys-delete :
      (s : Store) (t u : ℕ) (ks : List CacheKey)
      → keys (delete s t ks) u ≡ select (λ k. not (any (same_key k) ks)) (keys s u)
  pub keys-setex :
      (s : Store) (t u : ℕ) (k : CacheKey) (ttl : ℕ) (e : Entry)
      → select (λ x. not (same_key x k)) (keys (setex s t k ttl e) u)
        ≡ select (λ x. not (same_key x k)) (keys s u)
  pub get-setex :
      (s : Store) (t u : ℕ) (k x : CacheKey) (ttl : ℕ) (e : Entry)
      → same_key x k ≡ true
      → (get (setex s t k ttl e) u x ≡ none) ⊎ (get (setex s t k ttl e) u x ≡ some (some e))

-- an entry: the embedding of its question and the answer
pub record Cached (Emb Answer : Type 0) : Type 0 where
  pub embedding : Emb
  pub answer : Answer

module _ {Emb Answer : Type 0} (c : CacheStore (Cached Emb Answer))
    (similarity : Emb → Emb → Ratio) where
  open c use {Store, keys, get, setex, delete}

  -- one more entry against the best one so far
  abbrev pub better :
      Ratio
      → Emb
      → Cached Emb Answer
      → Option (Ratio × Cached Emb Answer)
      → Option (Ratio × Cached Emb Answer)
  better threshold e entry best =
      let sim = similarity e entry.embedding in
      elim best [
        | none ↦ if ratio_lt sim threshold then none else some (sim, entry)
        | some b ↦
            if not (ratio_lt sim threshold) && ratio_lt b.0 sim then some (sim, entry) else some b
      ]

  -- the loop over the keys; `none` is the exception of an entry that is no JSON. mget reads the keys in
  -- batches of 200, each of them once.
  unfoldable pub scan :
      Ratio
      → Emb
      → Store
      → ℕ
      → List CacheKey
      → Option (Ratio × Cached Emb Answer)
      → Option (Option (Ratio × Cached Emb Answer))
  scan threshold e s now [] best = some best
  scan threshold e s now (k ∷ ks) best = elim (get s now k) [
    | none ↦ scan threshold e s now ks best
    | some raw ↦ elim raw [
      | none ↦ none
      | some entry ↦ scan threshold e s now ks (better threshold e entry best)
    ]
  ]

  abbrev answer_of : Option (Option (Ratio × Cached Emb Answer)) → Option (Cached Emb Answer)
  answer_of none = none
  answer_of (some none) = none
  answer_of (some (some b)) = some b.1

  -- `lookup`
  unfoldable pub lookup : Ratio → Store → ℕ → String → Emb → Option (Cached Emb Answer)
  unfolding scan
  lookup threshold s now scope e = answer_of (
      scan threshold e s now (take max_scan (select (λ k. str_eq k.scope scope) (keys s now))) none)

  -- `store`
  unfoldable pub store : Settings → Store → ℕ → String → ℕ → Emb → Answer → Store
  store t s now scope query_id e answer =
      setex s now (record { scope = scope; query_id = query_id }) t.semantic_cache_ttl_seconds
        (record { embedding = e; answer = answer })

  -- `invalidate`: the deletions in batches of 1000, of the keys that the scan gave
  unfoldable pub delete_batches : ℕ → Store → ℕ → List CacheKey → List CacheKey → Store
  delete_batches n s now [] [] = s
  delete_batches n s now [] (b ∷ batch) = delete s now (b ∷ batch)
  delete_batches zero s now (k ∷ ks) batch =
      delete_batches 999 (delete s now (batch ++ k ∷ [])) now ks []
  delete_batches (suc n) s now (k ∷ ks) batch = delete_batches n s now ks (batch ++ k ∷ [])

  unfoldable pub invalidate : Store → ℕ → Store
  unfolding delete_batches
  invalidate s now = delete_batches 999 s now (keys s now) []
