-- ===== src/Tests/Caches.antt =====
-- Runs of the semantic cache.
use pipe_line_gpt_backend.Prelude.{
  ℕ, String, ◌≡◌, refl, Bool, true, false, not, Option, none, some, List, [], ◌∷◌, select, any, map,
  eq_refl, ◌==◌, if◌then◌else◌, arith, inr, ==_iff,
}
use pipe_line_gpt_backend.Config.{default_settings}
use pipe_line_gpt_backend.Models.{Ratio, ratio_lt}
use pipe_line_gpt_backend.SemanticCache.{
  CacheKey, same_key, CacheStore, Cached, scan, lookup, store, delete_batches, invalidate,
}
use pipe_line_gpt_backend.SemanticCache.Scoped.{lookup-store-invalidate}

-- A cache without expiry: the entries by their keys.
abbrev Entries : Type 0
Entries = List (CacheKey × Cached ℕ String)

abbrev keys_of : Entries → List CacheKey
keys_of s = map (λ x. x.0) s

abbrev entry_at : Entries → CacheKey → Option (Option (Cached ℕ String))
entry_at [] k = none
entry_at (x ∷ s) k = if same_key k x.0 then some (some x.1) else entry_at s k

abbrev without : (CacheKey → Bool) → Entries → Entries
without p s = select (λ x. p x.0) s

keys_of-without : (p : CacheKey → Bool) (s : Entries) → keys_of (without p s) ≡ select p (keys_of s)
keys_of-without p [] = refl
keys_of-without p (x ∷ s) = ground (arith, keys_of-without p s)

select-again : (p : CacheKey → Bool) (ks : List CacheKey) → select p (select p ks) ≡ select p ks
select-again p [] = refl
select-again p (k ∷ ks) = ground (arith, select-again p ks)

same_key_refl : (k : CacheKey) → same_key k k ≡ true
same_key_refl k = ground (arith, eq_refl k.scope, (==_iff k.query_id k.query_id).1 refl)

abbrev put : Entries → CacheKey → Cached ℕ String → Entries
put s k e = (k, e) ∷ without (λ x. not (same_key x k)) s

keys_of-put :
    (s : Entries) (k : CacheKey) (e : Cached ℕ String)
    → select (λ x. not (same_key x k)) (keys_of (put s k e))
      ≡ select (λ x. not (same_key x k)) (keys_of s)
keys_of-put s k e =
    rw (same_key_refl k, keys_of-without (λ x. not (same_key x k)) s)
      (select-again (λ x. not (same_key x k)) (keys_of s))

entry_at-put :
    (s : Entries) (k x : CacheKey) (e : Cached ℕ String)
    → same_key x k ≡ true
    → entry_at (put s k e) x ≡ some (some e)
entry_at-put s k x e same = ground arith

abbrev entries : CacheStore (Cached ℕ String)
entries = record {
  Store = Entries;
  keys = λ s t. keys_of s;
  get = λ s t k. entry_at s k;
  setex = λ s t k ttl e. put s k e;
  delete = λ s t ks. without (λ k. not (any (same_key k) ks)) s;
  keys-delete = λ s t u ks. keys_of-without (λ k. not (any (same_key k) ks)) s;
  keys-setex = λ s t u k ttl e. keys_of-put s k e;
  get-setex = λ s t u k x ttl e same. inr (entry_at-put s k x e same);
}

abbrev similarity : ℕ → ℕ → Ratio
similarity a b = record { num = if a == b then 1 else 0; den = 1 }

abbrev threshold : Ratio
threshold = record { num = 96; den = 100 }

-- one entry of the scope "en"
abbrev filled : Entries
filled = (record { scope = "en"; query_id = 4 }, record { embedding = 7; answer = "old" }) ∷ []

abbrev en : String
en = "en"

abbrev fresh : Cached ℕ String
fresh = record { embedding = 7; answer = "new" }

lookup-store-invalidate_example :
    (en ≡ en) × (fresh ≡ fresh) × (ratio_lt (similarity 7 7) threshold ≡ false)
unfolding lookup store invalidate scan delete_batches
lookup-store-invalidate_example =
    lookup-store-invalidate entries similarity default_settings threshold filled 5 6 8 en 9 7 "new"
      en 7 fresh (refl, tt) refl
