-- ===== src/Token/Manager/Absent.antt =====
-- A token without a usable row, and the pool after the refresh timer of internal/token/manager.go.
use mathlib.Core.Logic.Or
use mathlib.Core.Logic.{∥∥₁_elim}
use mathlib.Core.HLevel.{⊥_prop}
use mathlib.Core.Bool.{Bool-set}
use mathlib.Core.List.{Mem, mem-cons, not-mem-nil}
use claude_gate.Prelude.{
  ℕ, zero, suc, ◌≤◌, String, ◌≡◌, ◌≢◌, refl, Bool, true, false, ◌&&◌, none, some, List, [], ◌∷◌,
  arith, ℤ, ap, ◌∙◌, ◌==◌, eq_iff, ◌⊎◌, get_elem?, Option-cases, inl, inr,
}
use claude_gate.Prelude.Result.{ok}
use claude_gate.Store.Table.{exists, first, update, delete, at, first-holds}
use claude_gate.Store.Rows.{RealRow, RealToken, scan_real_token}
use claude_gate.Store.Engine.{Engine, Io, IsCalm, IsSql}
use claude_gate.Store.RealTokens.{is_usable}
use claude_gate.Store.Calm.{switched}
use claude_gate.Token.Cache.{CacheApi}
use claude_gate.Token.Pool.{TokenPool, get_by_id}
use claude_gate.Token.Manager.{Manager, refresh, fire_refresh, resolve_token}
use claude_gate.Token.Manager.Refresh.{refresh_usable, refresh_runs}
use claude_gate.Token.Manager.Resolve.{resolve_token_sound}

-- The row is one that a refresh would take for the identifier.
abbrev pub serves : ℤ → String → RealRow → Bool
serves max id x = at (λ r. r.id) id x && is_usable max x

pub serves-switched :
    (max : ℤ) (id : String) (e : Engine) (now : ℕ) (rs : List RealRow)
    → exists (serves max id) (update (at (λ r. r.id) id) (switched e now false) rs) ≡ false
unfolding exists update is_usable
serves-switched max id e now [] = refl
serves-switched max id e now (r ∷ rs) = ground (arith, serves-switched max id e now rs)

pub serves-delete :
    (max : ℤ) (id : String) (rs : List RealRow)
    → exists (serves max id) (delete (at (λ r. r.id) id) rs) ≡ false
unfolding exists delete
serves-delete max id [] = refl
serves-delete max id (r ∷ rs) = ground (arith, serves-delete max id rs)

mem-absent :
    (p : RealRow → Bool) (rs : List RealRow) (x : RealRow)
    → exists p rs ≡ false
    → Mem x rs
    → p x ≡ false
unfolding exists
mem-absent p [] x h m = absurd (not-mem-nil m)
mem-absent p (r ∷ rs) x h m =
    Or.elim (hlevel Bool-set) (mem-cons.0 m) (λ e. rw e (ground arith))
      (λ later. mem-absent p rs x (ground arith) later)

Mem-get_elem? : (ts : List RealToken) (i : ℕ) (t : RealToken) → get_elem? ts i ≡ some t → Mem t ts
Mem-get_elem? [] i t h = ground arith
Mem-get_elem? (x ∷ xs) zero t h = mem-cons.1 (Or.inl (ground arith))
Mem-get_elem? (x ∷ xs) (suc i) t h = mem-cons.1 (Or.inr (Mem-get_elem? xs i t h))

scan-id : (x : RealRow) → x.id ≡ (scan_real_token x).id
unfolding scan_real_token
scan-id x = refl

found_by_id :
    (p : TokenPool) (id : String) (t : RealToken)
    → get_by_id p id ≡ some t
    → (i : ℕ) × (get_elem? p.tokens i ≡ some t) × ((t.id == id) ≡ true)
unfolding get_by_id
found_by_id p id t h = first-holds (at (λ x. x.id) id) p.tokens t h

module _ {C : Type 0} (e : Engine) (io : Io) (m : Manager C) (id : String) where
  -- A refresh leaves no token in the pool that has no usable row.
  refresh-absent :
      IsSql e
      → IsCalm io
      → exists (serves m.pool.max_failures id) m.sticky.store.real_tokens ≡ false
      → get_by_id (refresh e io m).1.pool id ≡ none
  refresh-absent sql c gone = absent (Option-cases (get_by_id (refresh e io m).1.pool id))
    where
      impossible : (t : RealToken) → get_by_id (refresh e io m).1.pool id ≡ some t → ⊥
      impossible t found =
          let (i, there, hit) = found_by_id (refresh e io m).1.pool id t found in
          ∥∥₁_elim
            ((refresh_usable e io m t sql (refresh_runs e io m c)).0 (Mem-get_elem? _ i t there))
            ⊥_prop
            λ (x, held, passes, read).
              let same = ap (λ k. k == id) (scan-id x ∙ ap (λ k. k.id) read) ∙ hit in
              let out =
                mem-absent (serves m.pool.max_failures id) m.sticky.store.real_tokens x gone held in
              ground (arith, same, passes, out)

      absent :
          (get_by_id (refresh e io m).1.pool id ≡ none)
            ⊎ ((t : RealToken) × (get_by_id (refresh e io m).1.pool id ≡ some t))
          → get_by_id (refresh e io m).1.pool id ≡ none
      absent (inl none_found) = none_found
      absent (inr (t, found)) = absurd (impossible t found)

module _ {C : Type 0} (e : Engine) (io : Io) (m : Manager C) (id : String) where
  -- When the timer has fired, the pool has no token that had no usable row.
  pub fire_refresh-absent :
      (t : ℕ)
      → IsSql e
      → IsCalm io
      → m.refresh_at ≡ some t
      → t ≤ io.now
      → exists (serves m.pool.max_failures id) m.sticky.store.real_tokens ≡ false
      → get_by_id (fire_refresh e io m).pool id ≡ none
  unfolding fire_refresh
  fire_refresh-absent t sql c set due gone =
      ground (arith, refresh-absent e io (record m { refresh_at = none }) id sql c gone)

first-absent :
    (p : RealToken → Bool) (ts : List RealToken) (i : ℕ) (t : RealToken)
    → first p ts ≡ none
    → get_elem? ts i ≡ some t
    → p t ≡ false
unfolding first
first-absent p [] i t gone here = ground arith
first-absent p (x ∷ ts) zero t gone here = ground arith
first-absent p (x ∷ ts) (suc i) t gone here = ground (arith, first-absent p ts i t)

-- ResolveToken does not return what the pool has not.
pub resolve_token-absent :
    {C : Type 0} (e : Engine) (k : CacheApi C) (look bind : Io) (gate : String) (m : Manager C)
    (id : String) (t : RealToken)
    → get_by_id m.pool id ≡ none
    → (resolve_token e k look bind gate m).0 ≡ ok t
    → t.id ≢ id
unfolding get_by_id
resolve_token-absent e k look bind gate m id t gone resolved same =
    let (i, here) = (resolve_token_sound e k look bind gate m t resolved).0 in
    let miss = first-absent (at (λ x. x.id) id) m.pool.tokens i t gone here in
    ground (arith, eq_iff t.id id, miss)
