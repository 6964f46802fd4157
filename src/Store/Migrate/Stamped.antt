-- ===== src/Store/Migrate/Stamped.antt =====
-- The column applied_at of schema_migrations, on which nothing in migrate depends.
use claude_gate.Prelude.{
  ℕ, suc, String, ◌≡◌, refl, sym, ap, ◌∙◌, List, [], ◌∷◌, inl, inr, Bool-cases, Option-cases, arith,
  ℤ,
}
use claude_gate.Prelude.Result.{Result-cases, ok, err}
use claude_gate.Store.Migrate.{
  has_version, Migration, Toolbox, Schema, MigrateIo, IsUntroubled, scan_rows, scan_step,
  create_table, versions, insert_version, apply_migration, apply_all, ordered, migrate,
}
use claude_gate.Store.Migrate.Resume.{resumed_stamped}

-- The versions in their order and the other tables are the same.
abbrev pub Alike : {T : Type 0} → Schema T → Schema T → Type 0
Alike s s' = (versions s ≡ versions s') × (s.tables ≡ s'.tables)

-- The same run at other times.
abbrev pub at_times : (String → String) → MigrateIo → MigrateIo
at_times stamp io = record io { stamp = stamp }

module _ {T : Type 0} (g : Toolbox T) (io : MigrateIo) (stamp : String → String) where
  apply-Alike :
      (m : Migration) (s s' : Schema T)
      → Alike s s'
      → ((apply_migration g io m s).0 ≡ (apply_migration g (at_times stamp io) m s').0)
        × Alike (apply_migration g io m s).1 (apply_migration g (at_times stamp io) m s').1
  unfolding apply_migration insert_version
  apply-Alike m s s' (vs, ts) =
      (ground (arith, vs, ts), (ground (arith, vs, ts), ground (arith, vs, ts)))

  apply_all-Alike :
      (told : List ℤ) (ms : List Migration) (s s' : Schema T)
      → Alike s s'
      → ((apply_all g io told ms s).0 ≡ (apply_all g (at_times stamp io) told ms s').0)
        × Alike (apply_all g io told ms s).1 (apply_all g (at_times stamp io) told ms s').1
  unfolding apply_all
  apply_all-Alike told [] s s' h = (refl, h)
  apply_all-Alike told (m ∷ ms) s s' h = elim (Bool-cases (has_version m.version told)) [
    | inl skipped ↦ rw skipped (apply_all-Alike told ms s s' h)
    | inr tried ↦
        let once = apply-Alike m s s' h in
        elim (Result-cases (apply_migration g io m s).0) [
          | inl (_, done) ↦
              let done' : (apply_migration g (at_times stamp io) m s').0 ≡ ok tt =
                sym once.0 ∙ done in
              rw (tried, done, done')
                (apply_all-Alike told ms (apply_migration g io m s).1
                  (apply_migration g (at_times stamp io) m s').1 once.1)
          | inr (x, failed) ↦
              let failed' : (apply_migration g (at_times stamp io) m s').0 ≡ err x =
                sym once.0 ∙ failed in
              rw (tried, failed, failed') (refl, once.1)
        ]
  ]

  scan_rows-same : (n : ℕ) (vs : List ℤ) → scan_rows (at_times stamp io) n vs ≡ scan_rows io n vs
  unfolding scan_rows
  scan_rows-same n [] = refl
  scan_rows-same n (v ∷ vs) = ap (scan_step (io.row n) v) (scan_rows-same (suc n) vs)

  loop-Alike :
      (told : List ℤ) (s s' : Schema T)
      → Alike s s'
      → ((apply_all g io told (ordered g) (create_table g s)).0
          ≡ (apply_all g (at_times stamp io) told (ordered g) (create_table g s')).0)
        × Alike
            (apply_all g io told (ordered g) (create_table g s)).1
            (apply_all g (at_times stamp io) told (ordered g) (create_table g s')).1
  loop-Alike told s s' h = apply_all-Alike told (ordered g) (create_table g s) (create_table g s') h

  migrate-Alike :
      (s s' : Schema T)
      → Alike s s'
      → ((migrate g io s).0 ≡ (migrate g (at_times stamp io) s').0)
        × Alike (migrate g io s).1 (migrate g (at_times stamp io) s').1
  unfolding migrate
  migrate-Alike s s' (vs, ts) =
      let scans : scan_rows (at_times stamp io) 0 (versions s') ≡ scan_rows io 0 (versions s) =
        scan_rows-same 0 (versions s') ∙ ap (scan_rows io 0) (sym vs) in
      elim (Option-cases io.create) [
        | inr (x, failed) ↦ rw failed (refl, (vs, ts))
        | inl made ↦ elim (Option-cases io.query) [
          | inr (x, failed) ↦ rw (made, failed) (refl, (vs, ts))
          | inl asked ↦ elim (Result-cases (scan_rows io 0 (versions s))) [
            | inr (x, failed) ↦ rw (made, asked, scans, failed) (refl, (vs, ts))
            | inl (told, found) ↦ elim (Option-cases io.read_dir) [
              | inr (x, failed) ↦ rw (made, asked, scans, found, failed) (refl, (vs, ts))
              | inl there ↦ rw (made, asked, scans, found, there) (loop-Alike told s s' (vs, ts))
            ]
          ]
        ]
      ]

-- The migrations of a start that was cut short are taken up by the next one: whatever errors one run
-- of migrate meets, and even if it reads only a part of the applied versions, an untroubled run after
-- it, at whatever times, ends well if an untroubled run on the first database does, and leaves the same
-- versions in schema_migrations, in the same order, and the same other tables as that one. The times in
-- applied_at are those of the runs.
pub migrate_resumed :
    {T : Type 0} (g : Toolbox T) (calm : MigrateIo)
    → IsUntroubled calm
    → (io : MigrateIo) (later : String → String) (s end : Schema T)
    → migrate g calm s ≡ (ok tt, end)
    → let again = migrate g (at_times later calm) (migrate g io s).1 in
      (again.0 ≡ ok tt) × (versions again.1 ≡ versions end) × (again.1.tables ≡ end.tables)
migrate_resumed g calm c io later s end h =
    let first = at_times calm.stamp io in
    let whole = resumed_stamped g calm c first s end (λ name. refl) h in
    let early = migrate-Alike g io calm.stamp s s (refl, refl) in
    let late =
      migrate-Alike g calm later (migrate g first s).1 (migrate g io s).1
        (sym early.1.0, sym early.1.1) in
    (
      sym late.0 ∙ ap (λ q. q.0) whole,
      sym late.1.0 ∙ ap (λ q. versions q.1) whole,
      sym late.1.1 ∙ ap (λ q. q.1.tables) whole,
    )
