-- ===== src/Store/Migrate/Order.antt =====
-- Which versions a start records, and in which order.
use mathlib.Core.List.{Perm}
use claude_gate.Prelude.{
  sym, ◌≡◌, refl, ap, ◌∙◌, true, false, List, [], ◌∷◌, ◌++◌, map, inl, inr, Bool-cases, arith, ℤ,
  pos, negsuc, All, All-map, All-zip,
}
use claude_gate.Prelude.Result.{Result, Result-cases, ok, err}
use claude_gate.Store.Migrate.{
  eq_int, lt_int, has_version, Migration, Toolbox, Schema, MigrateIo, versions, apply_migration,
  apply_all, ordered, migrate, create_table, migrations_of,
}
use claude_gate.Store.Migrate.Resume.{
  Within, eq_int_refl, apply_undone, apply_new, apply_all-grows, migrate-cases, migrate-ok,
}
use claude_gate.Store.Migrate.Permuted.{version_of, has_version-perm, All-perm}

lt_int_total : (a b : ℤ) → eq_int a b ≡ false → lt_int b a ≡ false → lt_int a b ≡ true
unfolding eq_int lt_int
lt_int_total (pos a) (pos b) ne ge = ground arith
lt_int_total (pos a) (negsuc b) ne ge = ground arith
lt_int_total (negsuc a) (pos b) ne ge = ground arith
lt_int_total (negsuc a) (negsuc b) ne ge = ground arith

eq_int-eq : (a b : ℤ) → eq_int a b ≡ true → a ≡ b
unfolding eq_int
eq_int-eq (pos a) (pos b) h = ground arith
eq_int-eq (pos a) (negsuc b) h = ground arith
eq_int-eq (negsuc a) (pos b) h = ground arith
eq_int-eq (negsuc a) (negsuc b) h = ground arith

-- No migration has a smaller version than one before it.
abbrev pub Sorted : List Migration → Type 0
Sorted [] = Unit
Sorted (m ∷ ms) = All (λ x. lt_int x.version m.version ≡ false) ms × Sorted ms

-- Each version is greater than all that come after it.
abbrev pub Descending : List ℤ → Type 0
Descending [] = Unit
Descending (v ∷ vs) = All (λ w. lt_int w v ≡ true) vs × Descending vs

-- What is documented of sort.Slice: it sorts, and only moves the elements.
pub record IsSorting {T : Type 0} (g : Toolbox T) : Type 0 where
  pub permutes :
      (ms : List Migration) → Perm (g.sort_slice (λ a b. lt_int a.version b.version) ms) ms
  pub sorts : (ms : List Migration) → Sorted (g.sort_slice (λ a b. lt_int a.version b.version) ms)

-- The rows that were added, the latest first: they descend, were not there, and are versions of the
-- migrations.
pub record Added (ms : List Migration) (old new : List ℤ) : Type 0 where
  pub rows : List ℤ
  pub before : new ≡ rows ++ old
  pub descend : Descending rows
  pub fresh : All (λ v. has_version v old ≡ false) rows
  pub known : All (λ v. has_version v (map version_of ms) ≡ true) rows

no_rows-Added : (ms : List Migration) (old : List ℤ) → Added ms old old
no_rows-Added ms old = record { rows = []; before = refl; descend = tt; fresh = tt; known = tt }

later_not_less :
    (ms : List Migration) (v w : ℤ)
    → All (λ x. lt_int x.version w ≡ false) ms
    → has_version v (map version_of ms) ≡ true
    → lt_int v w ≡ false
unfolding has_version
later_not_less [] v w h k = ground arith
later_not_less (m ∷ ms) v w h k = ground (arith, eq_int-eq m.version v, later_not_less ms v w h.1)

All-skip :
    (m : Migration) (ms : List Migration) (vs : List ℤ)
    → All (λ v. has_version v (map version_of ms) ≡ true) vs
    → All (λ v. has_version v (map version_of (m ∷ ms)) ≡ true) vs
unfolding has_version
All-skip m ms vs h = All-map vs (λ v k. ground arith) h

All-snoc : (P : ℤ → Type 0) (vs : List ℤ) (w : ℤ) → All P vs → P w → All P (vs ++ w ∷ [])
All-snoc P [] w h k = (k, tt)
All-snoc P (v ∷ vs) w h k = (h.0, All-snoc P vs w h.1 k)

Descending-snoc :
    (vs : List ℤ) (w : ℤ)
    → Descending vs
    → All (λ v. lt_int w v ≡ true) vs
    → Descending (vs ++ w ∷ [])
Descending-snoc [] w h k = (tt, tt)
Descending-snoc (v ∷ vs) w h k = (All-snoc _ vs w h.0 k.0, Descending-snoc vs w h.1 k.1)

append-snoc : (vs : List ℤ) (w : ℤ) (us : List ℤ) → vs ++ w ∷ us ≡ (vs ++ w ∷ []) ++ us
append-snoc [] w us = refl
append-snoc (v ∷ vs) w us = ap (λ xs. v ∷ xs) (append-snoc vs w us)

-- One migration, and then what the later ones add.
Added-step :
    (m : Migration) (ms : List Migration) (old new : List ℤ)
    → Sorted (m ∷ ms)
    → has_version m.version old ≡ false
    → Added ms (m.version ∷ old) new
    → Added (m ∷ ms) old new
unfolding has_version
Added-step m ms old new sorted unseen later = record {
  rows = later.rows ++ m.version ∷ [];
  before = later.before ∙ append-snoc later.rows m.version old;
  descend = Descending-snoc later.rows m.version later.descend (
      All-zip later.rows
        (λ v old k.
          lt_int_total m.version v (ground arith) (later_not_less ms v m.version sorted.0 k))
        later.fresh later.known);
  fresh =
      All-snoc _ later.rows m.version (All-map later.rows (λ v h. ground arith) later.fresh) unseen;
  known =
      All-snoc _ later.rows m.version (All-skip m ms later.rows later.known)
        (ground (arith, eq_int_refl m.version));
}

Added-skip :
    (m : Migration) (ms : List Migration) (old new : List ℤ)
    → Added ms old new
    → Added (m ∷ ms) old new
Added-skip m ms old new a = record {
  rows = a.rows;
  before = a.before;
  descend = a.descend;
  fresh = a.fresh;
  known = All-skip m ms a.rows a.known;
}

module _ {T : Type 0} (g : Toolbox T) (io : MigrateIo) where
  apply_all-Added :
      (told : List ℤ) (ms : List Migration) (s : Schema T)
      → Sorted ms
      → Added ms (versions s) (versions (apply_all g io told ms s).1)
  unfolding apply_all
  apply_all-Added told [] s sorted = no_rows-Added [] (versions s)
  apply_all-Added told (m ∷ ms) s sorted = elim (Bool-cases (has_version m.version told)) [
    | inl skipped ↦ rw skipped (Added-skip m ms _ _ (apply_all-Added told ms s sorted.1))
    | inr tried ↦ elim (Result-cases (apply_migration g io m s).0) [
      | inl (_, done) ↦
          let new = apply_new g io m s done in
          let later = apply_all-Added told ms (apply_migration g io m s).1 sorted.1 in
          rw (tried, done) (Added-step m ms _ _ sorted new.0 (rw new.1 at later))
      | inr (x, failed) ↦
          rw (tried, failed, apply_undone g io m s x failed) (no_rows-Added (m ∷ ms) (versions s))
    ]
  ]

  -- A run that ends well has every version.
  apply_all-all :
      (told : List ℤ) (ms : List Migration) (s end : Schema T)
      → Within told (versions s)
      → apply_all g io told ms s ≡ (ok tt, end)
      → All (λ m. has_version m.version (versions end) ≡ true) ms
  unfolding apply_all has_version
  apply_all-all told [] s end sub done = tt
  apply_all-all told (m ∷ ms) s end sub done = elim (Bool-cases (has_version m.version told)) [
    | inl skipped ↦
        let rest : apply_all g io told ms s ≡ (ok tt, end) = ground arith in
        let there = apply_all-grows g io told ms s m.version (sub m.version skipped) in
        (ground arith, apply_all-all told ms s end sub rest)
    | inr tried ↦ elim (Result-cases (apply_migration g io m s).0) [
      | inl (_, ran) ↦
          let new = apply_new g io m s ran in
          let next = (apply_migration g io m s).1 in
          let rest : apply_all g io told ms next ≡ (ok tt, end) = ground arith in
          let there =
            apply_all-grows g io told ms next m.version (ground (arith, eq_int_refl m.version)) in
          (ground arith, apply_all-all told ms next end (λ v k. ground (arith, sub v k)) rest)
      | inr (x, failed) ↦ absurd (ground arith)
    ]
  ]

Added-perm :
    {ms ns : List Migration} {old new : List ℤ} → Perm ms ns → Added ms old new → Added ns old new
Added-perm same a = record {
  rows = a.rows;
  before = a.before;
  descend = a.descend;
  fresh = a.fresh;
  known = All-map a.rows (λ v h. sym (has_version-perm v same) ∙ h) a.known;
}

-- The migrations that the table has to have after a result.
abbrev pub due_after : Result (Unit {0}) → List Migration → List Migration
due_after (ok x) ms = ms
due_after (err x) ms = []

module _ {T : Type 0} (g : Toolbox T) (io : MigrateIo) (s : Schema T) where
  ordered-Perm : IsSorting g → Perm (ordered g) (migrations_of g g.entries)
  unfolding ordered
  ordered-Perm sorting = sorting.permutes (migrations_of g g.entries)

  pub migrate-all :
      (end : Schema T)
      → IsSorting g
      → migrate g io s ≡ (ok tt, end)
      → All (λ m. has_version m.version (versions end) ≡ true) (migrations_of g g.entries)
  migrate-all end sorting done =
      let (told, sub, ran) = migrate-ok g io s end done in
      All-perm (λ m. has_version m.version (versions end)) (ordered-Perm sorting)
        (apply_all-all g io told (ordered g) (create_table g s) end sub ran)

  -- Whatever errors migrate meets, and even if it reads only a part of the applied versions, what it
  -- adds to schema_migrations are versions of migration files that were not there, each greater than
  -- those it added before, and nothing is taken away. If it ends without an error, every migration
  -- file's version is there. sort.Slice is taken to sort, and to neither add nor lose an element.
  pub migrate_ascending :
      IsSorting g
      → Added (migrations_of g g.entries) (versions s) (versions (migrate g io s).1)
        × All
            (λ m. has_version m.version (versions (migrate g io s).1) ≡ true)
            (due_after (migrate g io s).0 (migrations_of g g.entries))
  migrate_ascending sorting = (
    Added-perm (ordered-Perm sorting) (elim (migrate-cases g io s) [
      | inl unmade ↦ rw unmade (no_rows-Added (ordered g) (versions s))
      | inr (inl made) ↦ rw made (no_rows-Added (ordered g) (versions s))
      | inr (inr (told, sub, looped)) ↦ rw looped (
          apply_all-Added g io told (ordered g) (create_table g s)
            (unfold ordered in sorting.sorts (migrations_of g g.entries)))
    ]),
    elim (Result-cases (migrate g io s).0) [
      | inl (_, done) ↦ rw done (migrate-all (migrate g io s).1 sorting (ground arith))
      | inr (x, failed) ↦ rw failed tt
    ],
  )
