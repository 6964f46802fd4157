-- ===== src/Store/Table.antt =====
-- The clauses of the SQL statements of internal/store, on a table as a list of rows: WHERE, UPDATE,
-- DELETE and COUNT by a test on the row, and a column whose values are distinct.
use claude_gate.Prelude.{
  ◌≢◌, get_elem?, suc, ℕ, suc, ◌<◌, String, ◌≡◌, refl, Bool, true, false, ◌||◌, Option, none, some,
  List, [], ◌∷◌, arith, ◌==◌, eq_iff, if◌then◌else◌, All, Bool-cases, inl, inr,
}

module _ {R : Type 0} where
  unfoldable pub exists : (R → Bool) → List R → Bool
  exists p [] = false
  exists p (r ∷ rs) = p r || exists p rs

  unfoldable pub select : (R → Bool) → List R → List R
  select p [] = []
  select p (r ∷ rs) = let rest = select p rs in if p r then r ∷ rest else rest

  -- The row of a query that gives at most one.
  unfoldable pub first : (R → Bool) → List R → Option R
  first p [] = none
  first p (r ∷ rs) = if p r then some r else first p rs

  unfoldable pub update : (R → Bool) → (R → R) → List R → List R
  update p f [] = []
  update p f (r ∷ rs) = (if p r then f r else r) ∷ update p f rs

  unfoldable pub delete : (R → Bool) → List R → List R
  delete p [] = []
  delete p (r ∷ rs) = let rest = delete p rs in if p r then rest else r ∷ rest

  -- The rows that a statement with this WHERE clause affects.
  unfoldable pub count : (R → Bool) → List R → ℕ
  count p [] = 0
  count p (r ∷ rs) = if p r then suc (count p rs) else count p rs

  -- A column without two equal values: PRIMARY KEY or a UNIQUE index.
  abbrev pub Distinct : (R → String) → List R → Type 0
  Distinct key [] = Unit
  Distinct key (r ∷ rs) = (exists (λ x. key x == key r) rs ≡ false) × Distinct key rs

  -- The row has the value `k` in the column `key`.
  abbrev pub at : (R → String) → String → R → Bool
  at key k r = key r == k

module _ {R : Type 0} (key : R → String) (p : R → Bool) where
  pub exists-delete_none :
      (k : String) (rs : List R)
      → exists (at key k) rs ≡ false
      → exists (at key k) (delete p rs) ≡ false
  unfolding exists delete
  exists-delete_none k [] h = refl
  exists-delete_none k (r ∷ rs) h = ground (arith, exists-delete_none k rs)

  pub Distinct-delete : (rs : List R) → Distinct key rs → Distinct key (delete p rs)
  unfolding delete
  Distinct-delete [] h = tt
  Distinct-delete (r ∷ rs) h =
      ground (arith, Distinct-delete rs h.1, exists-delete_none (key r) rs h.0)

  -- A deletion that keeps the rows with the value `k` keeps the answer to "is there one".
  pub exists-delete :
      (k : String) (rs : List R)
      → ((r : R) → key r ≡ k → p r ≡ false)
      → exists (at key k) (delete p rs) ≡ exists (at key k) rs
  unfolding exists delete
  exists-delete k [] h = refl
  exists-delete k (r ∷ rs) h = ground (arith, exists-delete k rs h, h r, eq_iff (key r) k)

module _ {R : Type 0} (key : R → String) (p : R → Bool) (f : R → R)
    (same : (r : R) → key (f r) ≡ key r) where
  pub exists-update :
      (k : String) (rs : List R) → exists (at key k) (update p f rs) ≡ exists (at key k) rs
  unfolding exists update
  exists-update k [] = refl
  exists-update k (r ∷ rs) = ground (arith, exists-update k rs, same r)

  pub Distinct-update : (rs : List R) → Distinct key rs → Distinct key (update p f rs)
  unfolding update
  Distinct-update [] h = tt
  Distinct-update (r ∷ rs) h =
      ground (arith, Distinct-update rs h.1, exists-update (key r) rs, same r)

module _ {R : Type 0} (p : R → Bool) where
  pub delete_none : (rs : List R) → exists p (delete p rs) ≡ false
  unfolding exists delete
  delete_none [] = refl
  delete_none (r ∷ rs) = ground (arith, delete_none rs)

  pub count-eq_zero : (rs : List R) → exists p rs ≡ false → count p rs ≡ 0
  unfolding exists count
  count-eq_zero [] h = refl
  count-eq_zero (r ∷ rs) h = ground (arith, count-eq_zero rs)

  pub count-pos : (rs : List R) → exists p rs ≡ true → 0 < count p rs
  unfolding exists count
  count-pos [] h = ground arith
  count-pos (r ∷ rs) h = ground (arith, count-pos rs)

  pub first-none : (rs : List R) → exists p rs ≡ false → first p rs ≡ none
  unfolding exists first
  first-none [] h = refl
  first-none (r ∷ rs) h = ground (arith, first-none rs)

  pub first-some :
      (rs : List R) → exists p rs ≡ true → (r : R) × (first p rs ≡ some r) × (p r ≡ true)
  unfolding exists first
  first-some [] h = ground arith
  first-some (r ∷ rs) h = elim (Bool-cases (p r)) [
    | inl hit ↦ (r, rw hit, hit)
    | inr miss ↦ rw miss (first-some rs (ground arith))
  ]

module _ {R : Type 0} (P : R → Type 0) (p : R → Bool) where
  pub All-delete : (rs : List R) → All P rs → All P (delete p rs)
  unfolding delete
  All-delete [] h = tt
  All-delete (r ∷ rs) h = ground (arith, All-delete rs h.1)

  pub All-update :
      (f : R → R) (rs : List R) → ((r : R) → P r → P (f r)) → All P rs → All P (update p f rs)
  unfolding update
  All-update f [] g h = tt
  All-update f (r ∷ rs) g h = ground (arith, All-update f rs g h.1, g r h.0)

  -- What is left by a deletion does not pass its test.
  pub All-delete_strong :
      {Q : R → Type 0} (rs : List R)
      → ((r : R) → P r → p r ≡ false → Q r)
      → All P rs
      → All Q (delete p rs)
  unfolding delete
  All-delete_strong [] g h = tt
  All-delete_strong (r ∷ rs) g h = ground (arith, All-delete_strong rs g h.1, g r h.0)

module _ {R : Type 0} (p : R → Bool) where
  -- "There is none" row by row.
  pub All-not : (rs : List R) → exists p rs ≡ false → All (λ r. p r ≡ false) rs
  unfolding exists
  All-not [] h = tt
  All-not (r ∷ rs) h = ground (arith, All-not rs)

abbrev pub map_option : {A B : Type 0} → (A → B) → Option A → Option B
map_option f none = none
map_option f (some a) = some (f a)

module _ {R : Type 0} (key : R → String) (f : R → R) (same : (r : R) → key (f r) ≡ key r) where
  -- An update of the row with key `k`, read back.
  pub first-update_self :
      (k : String) (rs : List R)
      → first (at key k) (update (at key k) f rs) ≡ map_option f (first (at key k) rs)
  unfolding first update
  first-update_self k [] = refl
  first-update_self k (r ∷ rs) = ground (arith, first-update_self k rs, same r)

  pub first-update_ne :
      (k j : String) (rs : List R)
      → k ≢ j
      → first (at key j) (update (at key k) f rs) ≡ first (at key j) rs
  unfolding first update
  first-update_ne k j [] h = refl
  first-update_ne k j (r ∷ rs) h =
      ground (arith, first-update_ne k j rs h, same r, eq_iff (key r) k, eq_iff (key r) j, h)

module _ {R : Type 0} (p : R → Bool) where
  pub first-holds :
      (rs : List R) (r : R)
      → first p rs ≡ some r
      → (i : ℕ) × (get_elem? rs i ≡ some r) × (p r ≡ true)
  unfolding first
  first-holds [] r h = ground arith
  first-holds (x ∷ rs) r h = elim (Bool-cases (p x)) [
    | inl hit ↦ (0, ground arith, ground arith)
    | inr miss ↦ let (i, here, passes) = first-holds rs r (ground arith) in (suc i, here, passes)
  ]

  -- Of a row that is found, the WHERE clause affects at least one row.
  pub count-some : (rs : List R) (r : R) → first p rs ≡ some r → 0 < count p rs
  unfolding first count
  count-some [] r h = ground arith
  count-some (x ∷ rs) r h = ground (arith, count-some rs r)

  pub count-none : (rs : List R) → first p rs ≡ none → count p rs ≡ 0
  unfolding first count
  count-none [] h = refl
  count-none (x ∷ rs) h = ground (arith, count-none rs)

  pub exists-first : (rs : List R) (r : R) → first p rs ≡ some r → exists p rs ≡ true
  unfolding first exists
  exists-first [] r h = ground arith
  exists-first (x ∷ rs) r h = ground (arith, exists-first rs r)
