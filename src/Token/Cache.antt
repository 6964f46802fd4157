-- ===== src/Token/Cache.antt =====
-- The in-memory cache that internal/token/sticky.go keeps (github.com/jellydator/ttlcache), which is
-- not in this repository: its calls are a parameter, and its documented behaviour is `IsCache`.
use claude_gate.Prelude.{
  Bool, pos, ◌+◌, ◌<◌, ℕ, ◌-◌, ◌≤◌, String, ◌≡◌, ◌≢◌, true, Option, some, ℤ, lt_ℤ,
}

-- `C` is the cache's state. `get key now` may change it: a hit can renew the item.
-- `set key value ttl now` is Set.
pub record CacheApi (C : Type 0) : Type 0 where
  pub get : String → ℕ → C → Option String × C
  pub set : String → String → ℤ → ℕ → C → C

-- An item is found again while its time to live has not passed, under its own key only, and a Get of
-- one key changes nothing about another.
pub record IsCache {C : Type 0} (k : CacheApi C) : Type 0 where
  pub get-set_self :
      (c : C) (key value : String) (ttl : ℤ) (now later : ℕ)
      → now ≤ later
      → lt_ℤ (later - now) ttl ≡ true
      → (k.get key later (k.set key value ttl now c)).0 ≡ some value
  pub get-set_ne :
      (c : C) (key other value : String) (ttl : ℤ) (now later : ℕ)
      → key ≢ other
      → (k.get other later (k.set key value ttl now c)).0 ≡ (k.get other later c).0
  pub get-get_ne :
      (c : C) (key other : String) (now later : ℕ)
      → key ≢ other
      → (k.get other later (k.get key now c).1).0 ≡ (k.get other later c).0

-- What is documented of an item over time. `lasts c key value until` says that `c` has the value under
-- the key and does not let it expire before the instant `until`: a Set makes it so for the time to live
-- that it is given, a Set of another key leaves it so, and so does any Get before that instant, as a Get
-- may put an expiry off and never brings it nearer.
pub record IsLasting {C : Type 0} (k : CacheApi C) : Type 0 where
  pub lasts : C → String → String → ℕ → Bool
  pub lasts-set :
      (c : C) (key value : String) (ttl now until : ℕ)
      → until ≤ now + ttl
      → lasts (k.set key value (pos ttl) now c) key value until ≡ true
  pub lasts-set_ne :
      (c : C) (key value other held : String) (ttl : ℤ) (now until : ℕ)
      → other ≢ key
      → lasts c key value until ≡ true
      → lasts (k.set other held ttl now c) key value until ≡ true
  pub lasts-get :
      (c : C) (key value other : String) (now until : ℕ)
      → now < until
      → lasts c key value until ≡ true
      → lasts (k.get other now c).1 key value until ≡ true
  pub get-lasts :
      (c : C) (key value : String) (now until : ℕ)
      → now < until
      → lasts c key value until ≡ true
      → (k.get key now c).0 ≡ some value
