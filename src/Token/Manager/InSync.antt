-- ===== src/Token/Manager/InSync.antt =====
-- The pool of internal/token/pool.go against the rows of the database.
use mathlib.Core.Bool.{Bool-set}
use mathlib.Core.List.{Perm, foldr}
use mathlib.Core.List.Perm
use claude_gate.Prelude.{
  ℕ, String, ◌≡◌, refl, sym, ap, ◌∙◌, Bool, true, false, ◌||◌, ◌==◌, some, List, [], ◌∷◌, map,
  arith, ◌⊎◌, ℤ,
}
use claude_gate.Store.Table.{exists, select, at}
use claude_gate.Store.Rows.{RealRow, scan_real_token}
use claude_gate.Store.Engine.{Engine, Io, IsCalm, IsSql}
use claude_gate.Store.RealTokens.{is_usable}
use claude_gate.Token.Manager.{Manager, refresh}
use claude_gate.Token.Manager.Refresh.{refresh_lem, refresh_runs}
use claude_gate.Token.Manager.Absent.{serves}

exists-foldr :
    (p : RealRow → Bool) (rs : List RealRow) → exists p rs ≡ foldr (λ r b. p r || b) false rs
unfolding exists
exists-foldr p [] = refl
exists-foldr p (r ∷ rs) = ap (λ b. p r || b) (exists-foldr p rs)

or_swap : (a b c : Bool) → (a || (b || c)) ≡ (b || (a || c))
or_swap true true c = refl
or_swap true false c = refl
or_swap false true c = refl
or_swap false false c = refl

exists-perm : (p : RealRow → Bool) {rs ss : List RealRow} → Perm rs ss → exists p rs ≡ exists p ss
exists-perm p {rs} {ss} h =
    exists-foldr p rs
    ∙ Perm.foldr-eq Bool-set (λ r b. p r || b) (λ a b c. or_swap (p a) (p b) c) h false
    ∙ sym (exists-foldr p ss)

exists-scan :
    (id : String) (rs : List RealRow)
    → exists (at (λ t. t.id) id) (map scan_real_token rs) ≡ exists (at (λ r. r.id) id) rs
unfolding exists scan_real_token
exists-scan id [] = refl
exists-scan id (r ∷ rs) = ap (λ b. (r.id == id) || b) (exists-scan id rs)

exists-select :
    (id : String) (max : ℤ) (rs : List RealRow)
    → exists (at (λ r. r.id) id) (select (is_usable max) rs) ≡ exists (serves max id) rs
unfolding exists select
exists-select id max [] = refl
exists-select id max (r ∷ rs) = ground (arith, exists-select id max rs)

-- The pool lists a token with an identifier exactly if a row with it is active and below the limit.
abbrev pub InSync : {C : Type 0} → Manager C → Type 0
InSync m =
    (id : String)
    → exists (at (λ t. t.id) id) m.pool.tokens
      ≡ exists (serves m.pool.max_failures id) m.sticky.store.real_tokens

module _ {C : Type 0} (e : Engine) (io : Io) (m : Manager C) (sql : IsSql e)
    (calm : IsCalm io) where
  pub refresh-InSync : InSync (refresh e io m).1
  refresh-InSync id =
      let rows = m.sticky.store.real_tokens in
      let usable = select (is_usable m.pool.max_failures) rows in
      rw (refresh_lem e io m (refresh_runs e io m calm)) (
        exists-scan id (e.order_real usable)
        ∙ exists-perm (at (λ r. r.id) id) (sql.order_real_perm usable)
        ∙ exists-select id m.pool.max_failures rows)

  pub refresh-store : (refresh e io m).1.sticky.store ≡ m.sticky.store
  refresh-store = rw (refresh_lem e io m (refresh_runs e io m calm)) refl

-- In sync, or a refresh is set.
abbrev pub Settled : {C : Type 0} → Manager C → Type 0
Settled m = InSync m ⊎ ((t : ℕ) × (m.refresh_at ≡ some t))
