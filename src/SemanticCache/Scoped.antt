-- ===== src/SemanticCache/Scoped.antt =====
-- backend/app/services/semantic_cache.py: what a lookup finds, and what the batches of an invalidation delete.
use pipe_line_gpt_backend.Prelude.{
  ℕ, zero, suc, String, ◌≡◌, refl, ◌∙◌, ap, sym, Bool, true, false, not, ◌&&◌, ◌||◌, Option, none,
  some, List, [], ◌∷◌, ◌++◌, select, take, any, str_eq, arith, Option-cases, Bool-cases, inl, inr,
  All, All-take, eq_iff,
}
use pipe_line_gpt_backend.Config.{Settings}
use pipe_line_gpt_backend.Models.{Ratio, ratio_lt}
use pipe_line_gpt_backend.SemanticCache.{
  CacheKey, same_key, max_scan, CacheStore, Cached, better, scan, lookup, store, delete_batches,
  invalidate,
}

module _ {Emb Answer : Type 0} (c : CacheStore (Cached Emb Answer))
    (similarity : Emb → Emb → Ratio) where
  open c use {Store, keys, get, setex, delete, keys-delete, keys-setex, get-setex}

  -- an entry that is stored under a key of some kind and close enough to a question
  abbrev pub IsHit : Ratio → Emb → Store → ℕ → (CacheKey → Bool) → Cached Emb Answer → Type 0
  IsHit threshold e s now kind entry =
      (k : CacheKey) × (kind k ≡ true)
      × (get s now k ≡ some (some entry))
      × (ratio_lt (similarity e entry.embedding) threshold ≡ false)

  abbrev BestIsHit :
      Ratio → Emb → Store → ℕ → (CacheKey → Bool) → Option (Ratio × Cached Emb Answer) → Type 0
  BestIsHit threshold e s now kind none = Unit
  BestIsHit threshold e s now kind (some b) = IsHit threshold e s now kind b.1

  better-BestIsHit :
      (threshold : Ratio) (e : Emb) (s : Store) (now : ℕ) (kind : CacheKey → Bool) (k : CacheKey)
      (entry : Cached Emb Answer) (best : Option (Ratio × Cached Emb Answer))
      → kind k ≡ true
      → get s now k ≡ some (some entry)
      → BestIsHit threshold e s now kind best
      → BestIsHit threshold e s now kind (better c similarity threshold e entry best)
  better-BestIsHit threshold e s now kind k entry none own there h =
      elim (Bool-cases (ratio_lt (similarity e entry.embedding) threshold)) [
        | inl far ↦ rw far tt
        | inr near ↦ rw near (k, own, there, near)
      ]
  better-BestIsHit threshold e s now kind k entry (some b) own there h =
      elim (Bool-cases (ratio_lt (similarity e entry.embedding) threshold)) [
        | inl far ↦ rw far h
        | inr near ↦ (elim (Bool-cases (ratio_lt b.0 (similarity e entry.embedding))) [
          | inl higher ↦ rw (near, higher) (k, own, there, near)
          | inr lower ↦ rw (near, lower) h
        ])
      ]

  scan-BestIsHit :
      (threshold : Ratio) (e : Emb) (s : Store) (now : ℕ) (kind : CacheKey → Bool)
      (ks : List CacheKey) (best found : Option (Ratio × Cached Emb Answer))
      → All (λ k. kind k ≡ true) ks
      → BestIsHit threshold e s now kind best
      → scan c similarity threshold e s now ks best ≡ some found
      → BestIsHit threshold e s now kind found
  unfolding scan
  scan-BestIsHit threshold e s now kind [] best found own h is =
      let same : best ≡ found = ground arith in rw same at h
  scan-BestIsHit threshold e s now kind (k ∷ ks) best found own h is =
      elim (Option-cases (get s now k)) [
        | inl gone ↦ scan-BestIsHit threshold e s now kind ks best found own.1 h (ground arith)
        | inr (raw, there) ↦ (elim (Option-cases raw) [
          | inl broken ↦ absurd (ground arith)
          | inr (entry, read) ↦
              let there' : get s now k ≡ some (some entry) = ground arith in
              scan-BestIsHit threshold e s now kind ks (better c similarity threshold e entry best)
                found own.1 (better-BestIsHit threshold e s now kind k entry best own.0 there' h)
                (rw (scan, there') at is)
        ])
      ]

  any-append :
      (k : CacheKey) (xs ys : List CacheKey)
      → any (same_key k) (xs ++ ys) ≡ any (same_key k) xs || any (same_key k) ys
  any-append k [] ys = refl
  any-append k (x ∷ xs) ys = ground (arith, any-append k xs ys)

  select-twice :
      (p q r : CacheKey → Bool) (xs : List CacheKey)
      → ((k : CacheKey) → r k ≡ p k && q k)
      → select q (select p xs) ≡ select r xs
  select-twice p q r [] same = refl
  select-twice p q r (x ∷ xs) same = ground (arith, same x, select-twice p q r xs same)

  abbrev none_of : List CacheKey → CacheKey → Bool
  none_of ks k = not (any (same_key k) ks)

  select-none_of_nil : (xs : List CacheKey) → select (none_of []) xs ≡ xs
  select-none_of_nil [] = refl
  select-none_of_nil (x ∷ xs) = ap (λ ys. x ∷ ys) (select-none_of_nil xs)

  select-same :
      (p q : CacheKey → Bool) (xs : List CacheKey)
      → ((k : CacheKey) → p k ≡ q k)
      → select p xs ≡ select q xs
  select-same p q [] same = refl
  select-same p q (x ∷ xs) same = ground (arith, same x, select-same p q xs same)

  none_of-append :
      (xs ys : List CacheKey) (k : CacheKey) → none_of (xs ++ ys) k ≡ none_of xs k && none_of ys k
  none_of-append xs ys k = ground (arith, any-append k xs ys)

  none_of-snoc :
      (xs ys : List CacheKey) (y k : CacheKey)
      → none_of ((xs ++ y ∷ []) ++ ys) k ≡ none_of (xs ++ y ∷ ys) k
  none_of-snoc xs ys y k =
      ground
        (arith, any-append k (xs ++ y ∷ []) ys, any-append k xs (y ∷ []), any-append k xs (y ∷ ys))

  -- the batches together delete the keys of the scan
  keys-delete_batches :
      (n : ℕ) (s : Store) (now u : ℕ) (ks batch : List CacheKey)
      → keys (delete_batches c similarity n s now ks batch) u
        ≡ select (none_of (batch ++ ks)) (keys s u)
  unfolding delete_batches
  keys-delete_batches n s now u [] [] = sym (select-none_of_nil (keys s u))
  keys-delete_batches n s now u [] (b ∷ batch) =
      keys-delete s now u (b ∷ batch)
      ∙ select-same (none_of (b ∷ batch)) (none_of ((b ∷ batch) ++ [])) (keys s u)
          (λ k. ground (arith, any-append k (b ∷ batch) []))
  keys-delete_batches zero s now u (k ∷ ks) batch =
      keys-delete_batches 999 (delete s now (batch ++ k ∷ [])) now u ks []
      ∙ ap (select (none_of ks)) (keys-delete s now u (batch ++ k ∷ []))
      ∙ select-twice (none_of (batch ++ k ∷ [])) (none_of ks) (none_of (batch ++ k ∷ ks)) (keys s u)
          (λ x. sym (none_of-snoc batch ks k x) ∙ none_of-append (batch ++ k ∷ []) ks x)
  keys-delete_batches (suc n) s now u (k ∷ ks) batch =
      keys-delete_batches n s now u ks (batch ++ k ∷ [])
      ∙ select-same (none_of ((batch ++ k ∷ []) ++ ks)) (none_of (batch ++ k ∷ ks)) (keys s u)
          (none_of-snoc batch ks k)

  select-none :
      (ks xs : List CacheKey)
      → All (λ k. any (same_key k) ks ≡ true) xs
      → select (none_of ks) xs ≡ []
  select-none ks [] h = refl
  select-none ks (x ∷ xs) h = ground (arith, h.0, select-none ks xs h.1)

  -- of the keys that the cache had at the invalidation, none is left
  keys-invalidate :
      (s : Store) (now u : ℕ)
      → All (λ k. any (same_key k) (keys s now) ≡ true) (keys s u)
      → keys (invalidate c similarity s now) u ≡ []
  unfolding invalidate
  keys-invalidate s now u h =
      keys-delete_batches 999 s now u (keys s now) [] ∙ select-none (keys s now) (keys s u) h

  abbrev in_scope : String → CacheKey → CacheKey → Bool
  in_scope scope k x = str_eq x.scope scope && same_key x k

  select-in_scope :
      (scope : String) (k : CacheKey) (xs : List CacheKey)
      → select (λ x. not (same_key x k)) xs ≡ []
      → All (λ x. in_scope scope k x ≡ true) (select (λ x. str_eq x.scope scope) xs)
  select-in_scope scope k [] h = tt
  select-in_scope scope k (x ∷ xs) h = elim (Bool-cases (same_key x k)) [
    | inl same ↦
        let rest = select-in_scope scope k xs (ground arith) in
        (elim (Bool-cases (str_eq x.scope scope)) [
          | inl e ↦ let is : in_scope scope k x ≡ true = ground arith in rw e (is, rest)
          | inr e ↦ rw e rest
        ])
    | inr other ↦ absurd (ground arith)
  ]

  -- a lookup finds one of the keys that it reads
  lookup-IsHit :
      (threshold : Ratio) (s : Store) (now : ℕ) (scope : String) (kind : CacheKey → Bool) (e : Emb)
      (entry : Cached Emb Answer)
      → All (λ k. kind k ≡ true) (select (λ k. str_eq k.scope scope) (keys s now))
      → lookup c similarity threshold s now scope e ≡ some entry
      → IsHit threshold e s now kind entry
  unfolding lookup
  lookup-IsHit threshold s now scope kind e entry all h =
      let found = select (λ k. str_eq k.scope scope) (keys s now) in
      let own = All-take (λ k. kind k ≡ true) max_scan found all in
      elim (Option-cases (scan c similarity threshold e s now (take max_scan found) none)) [
        | inl failed ↦ absurd (ground arith)
        | inr (best, is) ↦ (elim (Option-cases best) [
          | inl nothing ↦ absurd (ground arith)
          | inr (b, there) ↦
              let whole : scan c similarity threshold e s now (take max_scan found) none
                  ≡ some (some b) =
                ground arith in
              let same : entry ≡ b.1 = ground arith in
              rw same (
                scan-BestIsHit threshold e s now kind (take max_scan found) none (some b) own tt
                  whole)
        ])
      ]

  -- The cache is invalidated at a time and an answer is stored after it, and at the time of a
  -- lookup no key is listed that was not listed at the invalidation, but for the stored one. An
  -- answer that the lookup finds is then the stored one: it was stored under the scope of the
  -- question, and the embeddings reach the threshold.
  pub lookup-store-invalidate :
      (t : Settings) (threshold : Ratio) (s : Store) (now u v : ℕ) (own : String) (query_id : ℕ)
      (e_own : Emb) (answer : Answer) (scope : String) (e : Emb) (entry : Cached Emb Answer)
      → All (λ k. any (same_key k) (keys s now) ≡ true) (keys s v)
      → lookup c similarity threshold
          (store c similarity t (invalidate c similarity s now) u own query_id e_own answer)
          v
          scope
          e
        ≡ some entry
      → (own ≡ scope)
        × (entry ≡ record { embedding = e_own; answer = answer })
        × (ratio_lt (similarity e e_own) threshold ≡ false)
  unfolding store
  lookup-store-invalidate t threshold s now u v own query_id e_own answer scope e entry old h =
      let k : CacheKey = record { scope = own; query_id = query_id } in
      let new : Cached Emb Answer = record { embedding = e_own; answer = answer } in
      let s' = invalidate c similarity s now in
      let ttl = t.semantic_cache_ttl_seconds in
      let left : select (λ x. not (same_key x k)) (keys (setex s' u k ttl new) v) ≡ [] =
        keys-setex s' u v k ttl new
        ∙ ap (select (λ x. not (same_key x k))) (keys-invalidate s now v old) in
      let hit =
        lookup-IsHit threshold (setex s' u k ttl new) v scope (in_scope scope k) e entry
          (select-in_scope scope k (keys (setex s' u k ttl new) v) left) h in
      let x = hit.0 in
      let is = hit.1 in
      let there = hit.2 in
      let near = hit.3 in
      let theirs : str_eq x.scope scope ≡ true = ground arith in
      let same : same_key x k ≡ true = ground arith in
      let ours : str_eq x.scope own ≡ true = ground arith in
      let scopes : own ≡ scope =
        sym ((eq_iff x.scope own).0 ours) ∙ (eq_iff x.scope scope).0 theirs in
      elim (get-setex s' u v k x ttl new same) [
        | inl gone ↦ absurd (ground arith)
        | inr kept ↦ let it : entry ≡ new = ground arith in (scopes, it, (rw it at near))
      ]
