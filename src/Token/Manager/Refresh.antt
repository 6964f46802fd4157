-- ===== src/Token/Manager/Refresh.antt =====
-- Refresh of internal/token/pool.go: what it puts into the pool.
use mathlib.Core.Logic.{∥∥₁_map}
use mathlib.Core.List.{Mem, filter, mem-filter, mem-map}
use mathlib.Core.List.Perm
use claude_gate.Prelude.{
  ℤ, pos, negsuc, ℕ, ◌<◌, lt_ℤ, ◌≡◌, ◌↔◌, refl, Bool, true, false, List, [], ◌∷◌, map, arith,
}
use claude_gate.Prelude.Result.{ok}
use claude_gate.Store.Table.{select}
use claude_gate.Store.Rows.{Db, RealRow, RealToken, scan_real_token}
use claude_gate.Store.Engine.{Engine, Io, IsCalm, IsSql, statement, read_rows}
use claude_gate.Store.RealTokens.{is_usable, list_active_real_tokens}
use claude_gate.Token.Manager.{Manager, refresh}

bool_dec : (b : Bool) → Dec (b ≡ true)
bool_dec true = yes refl
bool_dec false = no (λ h. cc)

select-filter :
    (p : RealRow → Bool) (rs : List RealRow) → select p rs ≡ filter (λ r. bool_dec (p r)) rs
unfolding select bool_dec
select-filter p [] = refl
select-filter p (r ∷ rs) = ground (arith, select-filter p rs)

mem-select :
    (p : RealRow → Bool) (rs : List RealRow) (r : RealRow)
    → Mem r (select p rs) ↔ (Mem r rs × (p r ≡ true))
mem-select p rs r = rw select-filter (mem-filter (λ r. bool_dec (p r)))

-- The integer is above the number.
abbrev pub Above : ℤ → ℕ → Type 0
Above (pos max) n = n < max
Above (negsuc d) n = ⊥

-- A row that is active and has failed fewer times than the limit is read as the token.
abbrev pub Serves : ℤ → Db → RealToken → Type 0
Serves max_failures db t =
    (r : RealRow) × Mem r db.real_tokens
    × (r.is_active ≡ 1)
    × Above max_failures r.failure_count
    × (scan_real_token r ≡ t)

usable_iff :
    (max_failures : ℤ) (r : RealRow)
    → (is_usable max_failures r ≡ true) ↔ ((r.is_active ≡ 1) × Above max_failures r.failure_count)
unfolding is_usable lt_ℤ
usable_iff (pos max) r = (λ h. (ground arith, ground arith), λ (a, b). ground arith)
usable_iff (negsuc d) r = (λ h. absurd (ground arith), λ (a, b). absurd b)

module _ {C : Type 0} (e : Engine) (io : Io) (m : Manager C) where
  pub refresh_lem :
      (refresh e io m).0 ≡ ok tt
      → refresh e io m ≡ (
        ok tt,
        record m {
          pool = record m.pool {
            tokens =
                map scan_real_token (
                  e.order_real (select (is_usable m.pool.max_failures) m.sticky.store.real_tokens));
          };
        },
      )
  unfolding refresh list_active_real_tokens
  refresh_lem done = ground arith

  pub refresh_runs : IsCalm io → (refresh e io m).0 ≡ ok tt
  unfolding refresh list_active_real_tokens
  refresh_runs c = ground (arith, c.live, c.quiet (statement 0), c.quiet read_rows)

  pub refresh_usable :
      (t : RealToken)
      → IsSql e
      → (refresh e io m).0 ≡ ok tt
      → Mem t (refresh e io m).1.pool.tokens
        ↔ ∥ (
            (r : RealRow) × Mem r m.sticky.store.real_tokens
            × (is_usable m.pool.max_failures r ≡ true)
            × (scan_real_token r ≡ t)) ∥₁
  refresh_usable t sql done = rw (refresh_lem done) (there, back)
    where
      rows : List RealRow
      rows = m.sticky.store.real_tokens

      there :
          Mem t (map scan_real_token (e.order_real (select (is_usable m.pool.max_failures) rows)))
          → ∥ (
              (r : RealRow) × Mem r rows
              × (is_usable m.pool.max_failures r ≡ true)
              × (scan_real_token r ≡ t)) ∥₁
      there h = ∥∥₁_map (mem-map.0 h) λ (r, held, read).
          let (inside, passes) =
            (mem-select (is_usable m.pool.max_failures) rows r).0
              ((Perm.mem_iff (sql.order_real_perm _)).0 held) in
          (r, inside, passes, read)

      back :
          ∥ (
            (r : RealRow) × Mem r rows
            × (is_usable m.pool.max_failures r ≡ true)
            × (scan_real_token r ≡ t)) ∥₁
          → Mem t (map scan_real_token (e.order_real (select (is_usable m.pool.max_failures) rows)))
      back h = mem-map.1 (
          ∥∥₁_map h λ (r, inside, passes, read). (
            r,
            (Perm.mem_iff (sql.order_real_perm _)).1
                ((mem-select (is_usable m.pool.max_failures) rows r).1 (inside, passes)),
            read,
          ))

  -- After a refresh that succeeds, with an engine that keeps its laws, the pool's list holds a token
  -- exactly if it is what is read from a row of real_tokens whose is_active is 1 and whose failure_count
  -- is below max_failures, which is compared as an integer that may be negative.
  pub refresh_exact :
      (t : RealToken)
      → IsSql e
      → (refresh e io m).0 ≡ ok tt
      → Mem t (refresh e io m).1.pool.tokens ↔ ∥ Serves m.pool.max_failures m.sticky.store t ∥₁
  refresh_exact t sql done = (
    λ h. ∥∥₁_map ((refresh_usable t sql done).0 h) λ (r, inside, passes, read).
        let (active, below) = (usable_iff m.pool.max_failures r).0 passes in
        (r, inside, active, below, read),
    λ h. (refresh_usable t sql done).1 (
        ∥∥₁_map h λ (r, inside, active, below, read).
          (r, inside, (usable_iff m.pool.max_failures r).1 (active, below), read)),
  )
