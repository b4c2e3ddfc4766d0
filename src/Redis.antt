-- ===== src/Redis.antt =====
-- The counters and flags that the service keeps in Redis. Redis is not in this repository: `Redis`
-- holds the commands that the service sends, with what their documentation says of them. A command
-- takes the time at which the server runs it.
use pipe_line_gpt_backend.Prelude.{
  ℕ, ◌+◌, ◌≤◌, String, ◌≡◌, Bool, true, false, ◌&&◌, Option, none, some, ltb, ◌==◌, str_eq,
  if◌then◌else◌,
}

-- The keys, by the prefixes of their names: login_fail:email:E, login_fail:ip:A,
-- totp_used:USER:CODE and token_budget:USER:DAY.
pub data Key : Type 0 where
  login_email : String → Key
  login_ip : String → Key
  totp_used : ℕ → String → Key
  token_budget : ℕ → ℕ → Key

abbrev pub key_eq : Key → Key → Bool
key_eq (login_email a) (login_email b) = str_eq a b
key_eq (login_ip a) (login_ip b) = str_eq a b
key_eq (totp_used u a) (totp_used v b) = u == v && str_eq a b
key_eq (token_budget u d) (token_budget v e) = u == v && d == e
key_eq _ _ = false

-- A number, and the second at which it is gone, if it expires.
pub record Entry : Type 0 where
  pub value : ℕ
  pub deadline : Option ℕ

-- What is left of an entry at time `now`.
abbrev pub alive : ℕ → Option ℕ → Bool
alive now none = true
alive now (some d) = ltb now d

abbrev pub live : ℕ → Option Entry → Option Entry
live now none = none
live now (some e) = if alive now e.deadline then some e else none

abbrev pub bumped : ℕ → Option Entry → Option Entry
bumped n none = some (record { value = n; deadline = none })
bumped n (some e) = some (record e { value = e.value + n })

-- EXPIRE; with `nx` only where the key has no expiry.
abbrev pub expiring : Bool → ℕ → Option Entry → Option Entry
expiring nx d none = none
expiring true d (some e) =
    some (record e { deadline = elim e.deadline [ none ↦ some d | some t ↦ some t ] })
expiring false d (some e) = some (record e { deadline = some d })

pub record Redis : Type 1 where
  pub Store : Type 0
  pub entry : Store → ℕ → Key → Option Entry
  pub incrby : Store → ℕ → Key → ℕ → Store
  pub expire : Store → ℕ → Key → ℕ → Bool → Store
  pub delete : Store → ℕ → Key → Store
  -- SET key 1 EX ttl NX: the new store, and whether the key was set
  pub set_nx : Store → ℕ → Key → ℕ → Store × Bool
  pub entry-incrby :
      (s : Store) (t : ℕ) (k : Key) (n : ℕ) (j : Key)
      → entry (incrby s t k n) t j ≡ (if key_eq k j then bumped n (entry s t k) else entry s t j)
  pub entry-expire :
      (s : Store) (t : ℕ) (k : Key) (ttl : ℕ) (nx : Bool) (j : Key)
      → entry (expire s t k ttl nx) t j
        ≡ (if key_eq k j then live t (expiring nx (t + ttl) (entry s t k)) else entry s t j)
  pub entry-delete :
      (s : Store) (t : ℕ) (k j : Key)
      → entry (delete s t k) t j ≡ (if key_eq k j then none else entry s t j)
  pub set_nx-new :
      (s : Store) (t : ℕ) (k : Key) (ttl : ℕ) → entry s t k ≡ none → (set_nx s t k ttl).1 ≡ true
  pub set_nx-old :
      (s : Store) (t : ℕ) (k : Key) (ttl : ℕ) (e : Entry)
      → entry s t k ≡ some e
      → set_nx s t k ttl ≡ (s, false)
  pub entry-set_nx :
      (s : Store) (t : ℕ) (k : Key) (ttl : ℕ) (j : Key)
      → entry s t k ≡ none
      → entry (set_nx s t k ttl).0 t j ≡ (
          if key_eq k j
          then live t (some (record { value = 1; deadline = some (t + ttl) }))
          else entry s t j)
  -- Time only lets entries expire.
  pub entry-later : (s : Store) (t u : ℕ) (k : Key) → t ≤ u → entry s u k ≡ live u (entry s t k)
