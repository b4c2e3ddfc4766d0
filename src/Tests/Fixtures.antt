-- ===== src/Tests/Fixtures.antt =====
-- A store of counters in memory, which keeps the laws that `Redis` states, and small stand-ins for
-- the libraries around the service.
use pipe_line_gpt_backend.Prelude.{
  ℕ, ◌+◌, ◌≤◌, ◌≡◌, refl, Bool, true, false, Option, none, some, arith, str_eq, if◌then◌else◌,
  Bool-cases, inl, inr,
}
use pipe_line_gpt_backend.Config.{default_settings}
use pipe_line_gpt_backend.Models.{User, engineer, active}
use pipe_line_gpt_backend.Access.{Crypto, full, mfa_setup, token_claims}
use pipe_line_gpt_backend.Redis.{Redis, Key, Entry, live, bumped, expiring, key_eq}

abbrev pub Memory : Type 0
Memory = Key → Option Entry

abbrev pub put : Memory → Key → Option Entry → Memory
put m k o j = if key_eq k j then o else m j

pub live-bumped : (t n : ℕ) (o : Option Entry) → live t (bumped n (live t o)) ≡ bumped n (live t o)
live-bumped t n none = refl
live-bumped t n (some e) = ground arith

pub live-live : (t u : ℕ) (o : Option Entry) → t ≤ u → live u o ≡ live u (live t o)
live-live t u none h = refl
live-live t u (some e) h = ground arith

abbrev pub set_once : Memory → ℕ → Key → ℕ → Option Entry → Memory × Bool
set_once m t k ttl none = (put m k (some (record { value = 1; deadline = some (t + ttl) })), true)
set_once m t k ttl (some e) = (m, false)

module _ (m : Memory) (t : ℕ) (k : Key) where
  pub memory-incrby :
      (n : ℕ) (j : Key)
      → live t (put m k (bumped n (live t (m k))) j)
        ≡ (if key_eq k j then bumped n (live t (m k)) else live t (m j))
  memory-incrby n j = elim (Bool-cases (key_eq k j)) [
    | inl e ↦ rw e (live-bumped t n (m k))
    | inr e ↦ rw e
  ]

  pub memory-put :
      (o : Option Entry) (j : Key)
      → live t (put m k o j) ≡ (if key_eq k j then live t o else live t (m j))
  memory-put o j = elim (Bool-cases (key_eq k j)) [ inl e ↦ rw e | inr e ↦ rw e ]

  pub memory-set_new :
      (ttl : ℕ) → live t (m k) ≡ none → (set_once m t k ttl (live t (m k))).1 ≡ true
  memory-set_new ttl h = rw h

  pub memory-set_old :
      (ttl : ℕ) (e : Entry) → live t (m k) ≡ some e → set_once m t k ttl (live t (m k)) ≡ (m, false)
  memory-set_old ttl e h = rw h

  pub memory-set :
      (ttl : ℕ) (j : Key)
      → live t (m k) ≡ none
      → live t ((set_once m t k ttl (live t (m k))).0 j) ≡ (
          if key_eq k j
          then live t (some (record { value = 1; deadline = some (t + ttl) }))
          else live t (m j))
  memory-set ttl j h = rw h (memory-put (some (record { value = 1; deadline = some (t + ttl) })) j)

abbrev pub memory : Redis
memory = record {
  Store = Memory;
  entry = λ m t k. live t (m k);
  incrby = λ m t k n. put m k (bumped n (live t (m k)));
  expire = λ m t k ttl nx. put m k (expiring nx (t + ttl) (live t (m k)));
  delete = λ m t k. put m k none;
  set_nx = λ m t k ttl. set_once m t k ttl (live t (m k));
  entry-incrby = memory-incrby;
  entry-expire = λ m t k ttl nx j. memory-put m t k (expiring nx (t + ttl) (live t (m k))) j;
  entry-delete = λ m t k j. memory-put m t k none j;
  set_nx-new = memory-set_new;
  set_nx-old = memory-set_old;
  entry-set_nx = memory-set;
  entry-later = λ m t u k h. live-live t u (m k) h;
}

abbrev pub nothing_stored : Memory
nothing_stored k = none

abbrev pub ann : User
ann = record {
  id = 7;
  email = "ann@example.com";
  hashed_password = "correct horse";
  role = engineer;
  status = active;
  preferred_lang = "en";
  mfa_enabled = true;
  mfa_secret = some "123456";
  created_at = 1;
  last_login = none;
}

-- Passwords are their own hashes, a code is the secret, and a token is the name of its scope.
abbrev pub toy_crypto : Crypto
toy_crypto = record {
  hashpw = λ p. p;
  checkpw = λ p h. str_eq p h;
  dummy_hash = "#";
  totp = λ now secret code. str_eq secret code;
  random_base32 = λ n. "123456";
  jwt_encode = λ secret p. elim p.scope [
    | none ↦ "none"
    | some sc ↦ elim sc [ full ↦ "full" | mfa_setup ↦ "setup" ]
  ];
  jwt_decode = λ secret now t.
      if str_eq t "full"
      then some (token_claims default_settings 1000 1 7 engineer full)
      else some (token_claims default_settings 1000 1 7 engineer mfa_setup);
  lower = λ t. t;
}
