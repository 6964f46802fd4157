-- ===== src/Store/Migrate/Resume.antt =====
-- A start after a migration that failed.
use claude_gate.Prelude.{
  String, ℕ, suc, ◌≡◌, refl, sym, ap, ◌∙◌, true, false, List, [], ◌∷◌, ◌⊎◌, inl, inr, Bool-cases,
  Option-cases, arith, ℤ, pos, negsuc,
}
use claude_gate.Prelude.Result.{Result-cases, ok, err, Error}
use claude_gate.Store.Migrate.{
  eq_int, has_version, Migration, Toolbox, Schema, MigrateIo, IsUntroubled, scan_rows, versions,
  insert_version, apply_migration, apply_all, ordered, migrate, create_table,
}

pub eq_int_refl : (v : ℤ) → eq_int v v ≡ true
unfolding eq_int
eq_int_refl (pos n) = ground arith
eq_int_refl (negsuc n) = ground arith

-- Every version of the first list is in the second.
abbrev pub Within : List ℤ → List ℤ → Type 0
Within vs ws = (v : ℤ) → has_version v vs ≡ true → has_version v ws ≡ true

module _ {T : Type 0} (g : Toolbox T) where
  -- A migration that ends with an error leaves the database as it was.
  pub apply_undone :
      (io : MigrateIo) (m : Migration) (s : Schema T) (x : Error)
      → (apply_migration g io m s).0 ≡ err x
      → (apply_migration g io m s).1 ≡ s
  unfolding apply_migration insert_version
  apply_undone io m s x h = ground arith

  -- One that ends well was not there and is there now.
  pub apply_new :
      (io : MigrateIo) (m : Migration) (s : Schema T)
      → (apply_migration g io m s).0 ≡ ok tt
      → (has_version m.version (versions s) ≡ false)
        × (versions (apply_migration g io m s).1 ≡ m.version ∷ versions s)
  unfolding apply_migration insert_version
  apply_new io m s h = ground arith

  -- It leaves what every untroubled run of it would.
  apply_same :
      (io calm : MigrateIo) (m : Migration) (s : Schema T)
      → IsUntroubled calm
      → calm.stamp m.name ≡ io.stamp m.name
      → (apply_migration g io m s).0 ≡ ok tt
      → apply_migration g calm m s ≡ apply_migration g io m s
  unfolding apply_migration insert_version
  apply_same io calm m s c stamped h = ground (
    arith,
    stamped,
    c.reads m.name,
    c.begins m.name,
    c.execs m.name,
    c.records m.name,
    c.commits m.name,
  )

  -- No run takes a version away.
  pub apply_all-grows :
      (io : MigrateIo) (applied : List ℤ) (ms : List Migration) (s : Schema T)
      → Within (versions s) (versions (apply_all g io applied ms s).1)
  unfolding apply_all has_version
  apply_all-grows io applied [] s v h = h
  apply_all-grows io applied (m ∷ ms) s v h = elim (Bool-cases (has_version m.version applied)) [
    | inl skipped ↦ rw skipped (apply_all-grows io applied ms s v h)
    | inr tried ↦ elim (Result-cases (apply_migration g io m s).0) [
      | inl (_, done) ↦ ground (
        arith,
        apply_new io m s done,
        apply_all-grows io applied ms (apply_migration g io m s).1 v,
      )
      | inr (x, failed) ↦ ground (arith, apply_undone io m s x failed)
    ]
  ]

  -- An untroubled run that ends well does so whichever of the applied versions it is told.
  known_more :
      (calm : MigrateIo) (vs ws : List ℤ) (ms : List Migration) (s end : Schema T)
      → Within vs ws
      → Within ws (versions s)
      → apply_all g calm vs ms s ≡ (ok tt, end)
      → apply_all g calm ws ms s ≡ (ok tt, end)
  unfolding apply_all has_version
  known_more calm vs ws [] s end sub here h = h
  known_more calm vs ws (m ∷ ms) s end sub here h = elim (Bool-cases (has_version m.version vs)) [
    | inl skipped ↦ ground (arith, sub m.version skipped, known_more calm vs ws ms s end sub here)
    | inr tried ↦ elim (Result-cases (apply_migration g calm m s).0) [
      | inl (_, done) ↦
          let fresh = apply_new calm m s done in
          let next =
            known_more calm vs ws ms (apply_migration g calm m s).1 end sub
              (λ v known. ground (arith, here v known)) in
          ground (arith, here m.version, next)
      | inr (x, failed) ↦ ground arith
    ]
  ]

  -- A table that is there stays.
  apply_all-created :
      (io : MigrateIo) (applied : List ℤ) (ms : List Migration) (s : Schema T)
      → create_table g s ≡ s
      → create_table g (apply_all g io applied ms s).1 ≡ (apply_all g io applied ms s).1
  unfolding apply_all
  apply_all-created io applied [] s h = h
  apply_all-created io applied (m ∷ ms) s h = elim (Bool-cases (has_version m.version applied)) [
    | inl skipped ↦ rw skipped (apply_all-created io applied ms s h)
    | inr tried ↦ elim (Result-cases (apply_migration g io m s).0) [
      | inl (_, done) ↦
          let next =
            apply_all-created io applied ms (apply_migration g io m s).1
              (unfold apply_migration insert_version in ground (arith)) in
          ground (arith, next)
      | inr (x, failed) ↦ ground (arith, apply_undone io m s x failed)
    ]
  ]

  -- A run with any errors, told any of the applied versions, then an untroubled one.
  apply_all-resumed :
      (io calm : MigrateIo) (told applied : List ℤ) (ms : List Migration) (s end : Schema T)
      → IsUntroubled calm
      → ((name : String) → calm.stamp name ≡ io.stamp name)
      → Within told applied
      → Within applied (versions s)
      → apply_all g calm applied ms s ≡ (ok tt, end)
      → let s' = (apply_all g io told ms s).1 in apply_all g calm (versions s') ms s' ≡ (ok tt, end)
  unfolding apply_all has_version
  apply_all-resumed io calm told applied [] s end c stamped sub here h = h
  apply_all-resumed io calm told applied (m ∷ ms) s end c stamped sub here h =
      elim (Bool-cases (has_version m.version told)) [
        | inl skipped ↦
            let known = sub m.version skipped in
            let still = apply_all-grows io told ms s m.version (here m.version known) in
            ground (arith, apply_all-resumed io calm told applied ms s end c stamped sub here)
        | inr tried ↦ elim (Result-cases (apply_migration g io m s).0) [
          | inl (_, done) ↦
              let fresh = apply_new io m s done in
              let same = apply_same io calm m s c (stamped m.name) done in
              let next = apply_migration g io m s in
              let still = apply_all-grows io told ms next.1 m.version in
              let rest =
                apply_all-resumed io calm told applied ms next.1 end c stamped sub
                  (λ v known. ground (arith, here v known)) in
              ground (arith, eq_int_refl m.version, here m.version)
          | inr (x, failed) ↦
              let all = known_more calm applied (versions s) (m ∷ ms) s end here (λ v k. k) h in
              ground (arith, apply_undone io m s x failed)
        ]
      ]

scan_rows-sub :
    (io : MigrateIo) (n : ℕ) (vs told : List ℤ) → scan_rows io n vs ≡ ok told → Within told vs
unfolding scan_rows has_version
scan_rows-sub io n [] told h v k = ground arith
scan_rows-sub io n (w ∷ vs) told h v k = elim (Result-cases (scan_rows io (suc n) vs)) [
  | inl (rest, found) ↦ ground (arith, scan_rows-sub io (suc n) vs rest found v)
  | inr (x, failed) ↦ ground arith
]

scan_rows-all : (io : MigrateIo) (n : ℕ) (vs : List ℤ) → IsUntroubled io → scan_rows io n vs ≡ ok vs
unfolding scan_rows
scan_rows-all io n [] c = refl
scan_rows-all io n (v ∷ vs) c = rw (c.rows n, scan_rows-all io (suc n) vs c) refl

-- Where a run of migrate ends: before the table is made, after it, or in the loop.
pub migrate-cases :
    {T : Type 0} (g : Toolbox T) (io : MigrateIo) (s : Schema T)
    → ((migrate g io s).1 ≡ s)
      ⊎ (((migrate g io s).1 ≡ create_table g s)
          ⊎ ((told : List ℤ) × Within told (versions s)
              × ((migrate g io s).1 ≡ (apply_all g io told (ordered g) (create_table g s)).1)))
unfolding migrate
migrate-cases g io s = elim (Option-cases io.create) [
  | inr (x, failed) ↦ inl (ground arith)
  | inl made ↦ elim (Result-cases (scan_rows io 0 (versions s))) [
    | inr (x, failed) ↦ inr (inl (ground arith))
    | inl (told, found) ↦ elim (Option-cases io.query) [
      | inr (x, failed) ↦ inr (inl (ground arith))
      | inl asked ↦ elim (Option-cases io.read_dir) [
        | inr (x, failed) ↦ inr (inl (ground arith))
        | inl there ↦ inr (inr (told, scan_rows-sub io 0 (versions s) told found, ground arith))
      ]
    ]
  ]
]

-- A run that ends well went through the loop.
pub migrate-ok :
    {T : Type 0} (g : Toolbox T) (io : MigrateIo) (s end : Schema T)
    → migrate g io s ≡ (ok tt, end)
    → (told : List ℤ) × Within told (versions s)
      × (apply_all g io told (ordered g) (create_table g s) ≡ (ok tt, end))
unfolding migrate
migrate-ok g io s end done = elim (Result-cases (scan_rows io 0 (versions s))) [
  | inr (x, failed) ↦ absurd (ground arith)
  | inl (told, found) ↦ (told, scan_rows-sub io 0 (versions s) told found, ground arith)
]

module _ {T : Type 0} (g : Toolbox T) (calm : MigrateIo) (c : IsUntroubled calm) where
  calm_lem :
      (s : Schema T)
      → migrate g calm s ≡ apply_all g calm (versions s) (ordered g) (create_table g s)
  unfolding migrate
  calm_lem s =
      ground (arith, c.creates, c.queries, c.reads_dir, scan_rows-all calm 0 (versions s) c)

  -- The same if every version is recorded at the same time.
  pub resumed_stamped :
      (io : MigrateIo) (s end : Schema T)
      → ((name : String) → calm.stamp name ≡ io.stamp name)
      → migrate g calm s ≡ (ok tt, end)
      → migrate g calm (migrate g io s).1 ≡ (ok tt, end)
  resumed_stamped io s end stamped h = elim (migrate-cases g io s) [
    | inl unmade ↦ rw unmade h
    | inr (inl made) ↦ rw made (calm_lem (create_table g s) ∙ sym (calm_lem s) ∙ h)
    | inr (inr (told, sub, looped)) ↦
        let kept = apply_all-created g io told (ordered g) (create_table g s) refl in
        let resumed =
          apply_all-resumed g io calm told (versions s) (ordered g) (create_table g s) end c stamped
            sub (λ v known. known) (sym (calm_lem s) ∙ h) in
        rw looped (
          calm_lem (apply_all g io told (ordered g) (create_table g s)).1
          ∙ ap (apply_all g calm _ (ordered g)) kept
          ∙ resumed)
  ]
