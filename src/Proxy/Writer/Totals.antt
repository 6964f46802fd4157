-- ===== src/Proxy/Writer/Totals.antt =====
-- The totals of the tokens after a flush that succeeds.
use native.Mathlib.Nat.{ℕ_set}
use mathlib.Core.List.{Perm, foldr}
use mathlib.Core.List.Perm
use claude_gate.Prelude.{
  ℕ, ◌+◌, ◌^◌, ◌<◌, String, ◌≡◌, refl, ap, ◌∙◌, Option, none, some, List, [], ◌∷◌, arith,
  if◌then◌else◌, Bool-cases, inl, inr, ◌==◌, eq_iff,
}
use claude_gate.Store.Table.{first, update, at, map_option, first-update_self, first-update_ne}
use claude_gate.Proxy.Tap.{UsageData}
use claude_gate.Proxy.Writer.{UsageEntry, TokenUsage, Totals, add64, add_usage, totals}

-- The usage of a token: over the entries that name it, and over a map of totals.
abbrev pub one_entry : (UsageData → ℕ) → (UsageEntry → String) → String → UsageEntry → ℕ
one_entry col key id x = if key x == id then col x.usage else 0

unfoldable pub used : (UsageData → ℕ) → (UsageEntry → String) → String → List UsageEntry → ℕ
used col key id [] = 0
used col key id (x ∷ xs) = one_entry col key id x + used col key id xs

abbrev pub one_total : (TokenUsage → ℕ) → String → String × TokenUsage → ℕ → ℕ
one_total col id p n = (if p.0 == id then col p.1 else 0) + n

weight : (TokenUsage → ℕ) → String → Totals → ℕ
weight col id ts = foldr (one_total col id) 0 ts

weight-perm :
    (col : TokenUsage → ℕ) (id : String) {ts us : Totals}
    → Perm ts us
    → weight col id ts ≡ weight col id us
unfolding weight
weight-perm col id p = Perm.foldr-eq ℕ_set (one_total col id) (λ a b n. omega arith) p 0

-- A column of the map of totals, and the column of an entry's usage that it adds up.
module _ (col : TokenUsage → ℕ) (ucol : UsageData → ℕ)
    (fresh : (u : UsageData)
      → col (record { input = u.input_tokens; output = u.output_tokens }) ≡ ucol u)
    (merged : (v : TokenUsage) (u : UsageData)
      → col
          (record { input = add64 v.input u.input_tokens; output = add64 v.output u.output_tokens })
        ≡ add64 (col v) (ucol u)) where
  weight-add_usage :
      (id k : String) (u : UsageData) (ts : Totals)
      → weight col id ts + (if k == id then ucol u else 0) < 2 ^ 63
      → weight col id (add_usage k u ts) ≡ weight col id ts + (if k == id then ucol u else 0)
  unfolding weight add_usage
  weight-add_usage id k u [] h = ground (arith, fresh u)
  weight-add_usage id k u ((j, v) ∷ ts) h = elim (Bool-cases (j == k)) [
    | inl hit ↦ elim (Bool-cases (k == id)) [
      | inl same ↦ ground (arith, merged v u, eq_iff j k, eq_iff k id, eq_iff j id)
      | inr other ↦ ground (arith, eq_iff j k, eq_iff k id, eq_iff j id)
    ]
    | inr miss ↦ ground (arith, weight-add_usage id k u ts)
  ]

  weight-totals :
      (key : UsageEntry → String) (id : String) (xs : List UsageEntry) (ts : Totals)
      → weight col id ts + used ucol key id xs < 2 ^ 63
      → weight col id (totals key xs ts) ≡ weight col id ts + used ucol key id xs
  unfolding totals used
  weight-totals key id [] ts h = omega arith
  weight-totals key id (x ∷ xs) ts h =
      let one = weight-add_usage id (key x) x.usage ts (omega arith) in
      weight-totals key id xs (add_usage (key x) x.usage ts) (omega (arith, one))
      ∙ omega (arith, one)

-- A table whose rows take up a map of totals one token after the other.
module _ {R : Type 0} (key : R → String) (set : String → TokenUsage → R → R)
    (same : (k : String) (u : TokenUsage) (r : R) → key (set k u r) ≡ key r) where
  unfoldable pub apply_all : Totals → List R → List R
  apply_all [] rs = rs
  apply_all ((k, u) ∷ ts) rs = apply_all ts (update (at key k) (set k u) rs)

  first-apply_all :
      (col : TokenUsage → ℕ) (sum : R → ℕ)
      → ((k : String) (u : TokenUsage) (r : R)
          → sum r + col u < 2 ^ 63
          → sum (set k u r) ≡ sum r + col u)
      → (id : String) (ts : Totals) (rs : List R) (r : R) → first (at key id) rs ≡ some r
      → sum r + weight col id ts < 2 ^ 63
      → map_option sum (first (at key id) (apply_all ts rs)) ≡ some (sum r + weight col id ts)
  unfolding apply_all weight
  first-apply_all col sum adds id [] rs r here room = ground arith
  first-apply_all col sum adds id ((k, u) ∷ ts) rs r here room = elim (Bool-cases (k == id)) [
    | inl hit ↦
        let next = ap (map_option (set k u)) here in
        let found = first-update_self key (set k u) (same k u) k rs in
        let grown = adds k u r (ground arith) in
        ground (
          arith,
          eq_iff k id,
          next,
          found,
          grown,
          first-apply_all col sum adds id ts (update (at key k) (set k u) rs) (set k u r),
        )
    | inr miss ↦
        let found =
          first-update_ne key (set k u) (same k u) k id rs (λ h. ground (arith, eq_iff k id)) in
        ground (arith, found, first-apply_all col sum adds id ts (update (at key k) (set k u) rs) r)
  ]

-- The column of the map of totals and what the entries used.
module _ (key : UsageEntry → String) (order : Totals → Totals)
    (once : (ts : Totals) → Perm (order ts) ts) (id : String) (xs : List UsageEntry) where
  weight_input :
      used (λ u. u.input_tokens) key id xs < 2 ^ 63
      → weight (λ v. v.input) id (order (totals key xs [])) ≡ used (λ u. u.input_tokens) key id xs
  unfolding weight
  weight_input room =
      weight-perm (λ v. v.input) id (once (totals key xs []))
      ∙ weight-totals (λ v. v.input) (λ u. u.input_tokens) (λ u. refl) (λ v u. refl) key id xs []
          (omega arith)
      ∙ omega arith

  weight_output :
      used (λ u. u.output_tokens) key id xs < 2 ^ 63
      → weight (λ v. v.output) id (order (totals key xs [])) ≡ used (λ u. u.output_tokens) key id xs
  unfolding weight
  weight_output room =
      weight-perm (λ v. v.output) id (once (totals key xs []))
      ∙ weight-totals (λ v. v.output) (λ u. u.output_tokens) (λ u. refl) (λ v u. refl) key id xs []
          (omega arith)
      ∙ omega arith

abbrev pub both : {R : Type 0} → (R → ℕ) → (R → ℕ) → R → ℕ × ℕ
both a b r = (a r, b r)

paired :
    {R : Type 0} (a b : R → ℕ) (o : Option R) (x y : ℕ)
    → map_option a o ≡ some x
    → map_option b o ≡ some y
    → map_option (both a b) o ≡ some (x, y)
paired a b none x y h k = ground arith
paired a b (some r) x y h k = ground arith

-- A table that took up the totals of the entries.
module _ {R : Type 0} (row_id : R → String) (set : String → TokenUsage → R → R)
    (same : (k : String) (u : TokenUsage) (r : R) → row_id (set k u r) ≡ row_id r)
    (tin tout : R → ℕ)
    (adds_in : (k : String) (u : TokenUsage) (r : R)
      → tin r + u.input < 2 ^ 63
      → tin (set k u r) ≡ tin r + u.input)
    (adds_out : (k : String) (u : TokenUsage) (r : R)
      → tout r + u.output < 2 ^ 63
      → tout (set k u r) ≡ tout r + u.output) where
  pub rows_grown :
      (key : UsageEntry → String) (order : Totals → Totals)
      → ((ts : Totals) → Perm (order ts) ts)
      → (id : String) (xs : List UsageEntry) (rs : List R) (r : R)
      → first (at row_id id) rs ≡ some r
      → tin r + used (λ u. u.input_tokens) key id xs < 2 ^ 63
      → tout r + used (λ u. u.output_tokens) key id xs < 2 ^ 63
      → map_option
          (both tin tout)
          (first (at row_id id) (apply_all row_id set same (order (totals key xs [])) rs))
        ≡ some (
          tin r + used (λ u. u.input_tokens) key id xs,
          tout r + used (λ u. u.output_tokens) key id xs,
        )
  rows_grown key order once id xs rs r here low_in low_out =
      let ts = order (totals key xs []) in
      let win = weight_input key order once id xs (omega arith) in
      let wout = weight_output key order once id xs (omega arith) in
      paired tin tout (first (at row_id id) (apply_all row_id set same ts rs)) _ _
        (first-apply_all row_id set same (λ v. v.input) tin adds_in id ts rs r here
            (omega (arith, win))
          ∙ ap (λ n. some (tin r + n)) win)
        (first-apply_all row_id set same (λ v. v.output) tout adds_out id ts rs r here
            (omega (arith, wout))
          ∙ ap (λ n. some (tout r + n)) wout)
