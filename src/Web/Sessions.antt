-- ===== src/Web/Sessions.antt =====
-- The login sessions of web/handler.go. Their cache (github.com/jellydator/ttlcache) is a parameter.
pub mod SignedIn
pub mod Lasting
use claude_gate.Prelude.{
  ℕ, ◌≤◌, ◌<◌, ◌+◌, String, ◌≡◌, ◌≢◌, Bool, true, false, ◌==◌, Option, none, some, List, [], ◌∷◌,
  if◌then◌else◌,
}

-- sessionTTL, 24 hours in nanoseconds.
abbrev pub session_ttl : ℕ
session_ttl = 86400000000000

-- `D` is the cache's state. `get key now` tells whether Get finds an item, and may renew it; `set` is
-- Set with the default time to live, which is session_ttl; `new` is the cache that New makes.
pub record SessionApi (D : Type 0) : Type 0 where
  pub new : D
  pub get : String → ℕ → D → Bool × D
  pub set : String → ℕ → D → D
  pub delete : String → D → D

-- What is documented of the cache. `holds c k` says that `c` has an item with the key `k`, expired or
-- not: only Set adds one, Delete takes it away, and Get finds only what is there. What was set is found
-- until its time to live has passed.
pub record IsSessions {D : Type 0} (a : SessionApi D) : Type 0 where
  pub holds : D → String → Bool
  pub holds-new : (k : String) → holds a.new k ≡ false
  pub holds-set : (c : D) (k j : String) (now : ℕ) → j ≢ k → holds (a.set j now c) k ≡ holds c k
  pub holds-delete : (c : D) (k : String) → holds (a.delete k c) k ≡ false
  pub holds-delete_ne : (c : D) (k j : String) → j ≢ k → holds (a.delete j c) k ≡ holds c k
  pub holds-get :
      (c : D) (k j : String) (now : ℕ) → holds c k ≡ false → holds (a.get j now c).1 k ≡ false
  pub get-holds : (c : D) (k : String) (now : ℕ) → holds c k ≡ false → (a.get k now c).0 ≡ false
  pub get-set_self :
      (c : D) (k : String) (now later : ℕ)
      → now ≤ later
      → later < now + session_ttl
      → (a.get k later (a.set k now c)).0 ≡ true

-- What is documented of an item over time. `lasts c key until` says that `c` has an item with the key
-- and does not let it expire before the instant `until`: a Set makes it so for the time to live, a Set
-- or a Delete of another key leaves it so, and so does any Get before that instant, as a Get may put an
-- expiry off and never brings it nearer.
pub record IsLastingSessions {D : Type 0} (a : SessionApi D) : Type 0 where
  pub lasts : D → String → ℕ → Bool
  pub lasts-set :
      (d : D) (key : String) (now until : ℕ)
      → until ≤ now + session_ttl
      → lasts (a.set key now d) key until ≡ true
  pub lasts-set_ne :
      (d : D) (key other : String) (now until : ℕ)
      → other ≢ key
      → lasts d key until ≡ true
      → lasts (a.set other now d) key until ≡ true
  pub lasts-delete_ne :
      (d : D) (key other : String) (until : ℕ)
      → other ≢ key
      → lasts d key until ≡ true
      → lasts (a.delete other d) key until ≡ true
  pub lasts-get :
      (d : D) (key other : String) (now until : ℕ)
      → now < until
      → lasts d key until ≡ true
      → lasts (a.get other now d).1 key until ≡ true
  pub get-lasts :
      (d : D) (key : String) (now until : ℕ)
      → now < until
      → lasts d key until ≡ true
      → (a.get key now d).0 ≡ true

-- The answer to a page: a redirect, with the session cookie set, cleared or left alone, or a page.
pub data CookieChange : Type 0 where
  unchanged cleared : CookieChange
  assigned : String → CookieChange

pub data LoginReply : Type 0 where
  see_other : String → CookieChange → LoginReply
  login_page : String → LoginReply

module _ {D : Type 0} (a : SessionApi D) where
  abbrev pub session_get : ℕ → Option String → D → Bool × D
  session_get now none d = (false, d)
  session_get now (some token) d = a.get token now d

  -- ValidateSession of a request with this cookie.
  unfoldable pub validate_session : ℕ → Option String → D → Bool × D
  validate_session now cookie d = session_get now cookie d

  -- loginSubmit; `token` is what generateSessionToken draws.
  unfoldable pub login_submit : ℕ → String → String → String → D → LoginReply × D
  login_submit now admin_secret token secret d =
      if secret == admin_secret
      then (see_other "/admin/" (assigned token), a.set token now d)
      else (login_page "Invalid admin secret", d)

  abbrev pub deleted : Option String → D → D
  deleted none d = d
  deleted (some token) d = a.delete token d

  unfoldable pub logout : Option String → D → LoginReply × D
  logout cookie d = (see_other "/admin/login" cleared, deleted cookie d)

  -- requireAuth: the page, or the way to the login.
  unfoldable pub require_auth : {R : Type 0} → (LoginReply → R) → ℕ → Option String → R → D → R × D
  require_auth redirect now cookie next d =
      let (found, d') = session_get now cookie d in
      (if found then next else redirect (see_other "/admin/login" unchanged), d')
