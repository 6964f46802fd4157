-- ===== src/Token/Pool/Rotation.antt =====
-- Consecutive calls of Select(nil) of internal/token/pool.go.
use native.Mathlib.Nat.{
  mul-add-mod_self_right, zero-add, suc-add, mod-eq_of_lt, div-add-mod', mod-lt,
}
use mathlib.Core.List.{map-append}
use claude_gate.Prelude.{
  ℕ, zero, suc, ◌+◌, ◌-◌, ◌*◌, ◌/◌, ◌%◌, ◌≤◌, ◌<◌, ◌≡◌, sym, ap, ◌∙◌, false, some, List, [], ◌∷◌,
  ◌++◌, map, arith, length, get_elem?, get_elem?-some, take, drop, take-drop_step, take_all,
  length-drop, ℤ,
}
use claude_gate.Prelude.Result.{Result, ok}
use claude_gate.Store.Rows.{RealToken}
use claude_gate.Token.Pool.{TokenPool, u64_mod, select_loop, select_token}

-- `k` calls of Select(nil) one after the other, and what they return.
unfoldable pub select_times : ℕ → TokenPool → List (Result RealToken) × TokenPool
select_times zero p = ([], p)
select_times (suc k) p =
    let (r, p') = select_token (λ _. false) p in let (rs, q) = select_times k p' in (r ∷ rs, q)

abbrev pool : List RealToken → ℤ → ℕ → TokenPool
pool ts max c = record { tokens = ts; counter = c; max_failures = max }

-- One call returns the token at the counter.
select_token_at :
    (ts : List RealToken) (max : ℤ) (c : ℕ) (t : RealToken)
    → 0 < length ts
    → c + 1 < u64_mod
    → get_elem? ts (c % length ts) ≡ some t
    → select_token (λ _. false) (pool ts max c) ≡ (ok t, pool ts max (c + 1))
unfolding select_token select_loop
select_token_at [] max c t h room here = absurd (omega arith)
select_token_at (x ∷ xs) max c t h room here =
    let now : (c + 0) % u64_mod ≡ c = omega arith in
    let next : (c + 1) % u64_mod ≡ c + 1 = mod-eq_of_lt room in rw (now, here, next) (ground arith)

module _ (ts : List RealToken) (max : ℤ) (h : 0 < length ts) where
  picks :
      (k r m c : ℕ)
      → c ≡ m * length ts + r
      → r + k ≤ length ts
      → c + k < u64_mod
      → select_times k (pool ts max c) ≡ (map ok (take k (drop r ts)), pool ts max (c + k))
  unfolding select_times
  picks zero r m c e fits room = ground arith
  picks (suc k) r m c e fits room =
      let (t, here) = get_elem?-some ts r (omega arith) in
      let at_r : c % length ts ≡ r =
        ap (λ x. x % length ts) e
        ∙ mul-add-mod_self_right m (length ts) r
        ∙ mod-eq_of_lt (omega arith) in
      let one = select_token_at ts max c t h (omega arith) (ap (get_elem? ts) at_r ∙ here) in
      let rest = picks k (suc r) m (c + 1) (omega arith) (omega arith) (omega arith) in
      ground (arith, one, rest, take-drop_step ts r k t here)

  select_times-append :
      (a b : ℕ) (p : TokenPool)
      → (select_times (a + b) p).0 ≡ (select_times a p).0 ++ (select_times b (select_times a p).1).0
  unfolding select_times
  select_times-append zero b p = rw zero-add
  select_times-append (suc a) b p = rw suc-add (
      ap (λ l. (select_token (λ _. false) p).0 ∷ l)
        (select_times-append a b (select_token (λ _. false) p).1))

-- As many calls of Select(nil) as the pool has tokens return every token of the pool once: the list
-- from the counter's place on and then from its head, for every pool that is not empty, as long as
-- the counter does not wrap meanwhile.
pub select_times-rotation :
    (p : TokenPool)
    → 0 < length p.tokens
    → p.counter + length p.tokens < u64_mod
    → (select_times (length p.tokens) p).0
      ≡ map ok (
          drop (p.counter % length p.tokens) p.tokens
          ++ take (p.counter % length p.tokens) p.tokens)
select_times-rotation p h room =
    let ts = p.tokens in
    let n = length ts in
    let c = p.counter in
    let r = c % n in
    let low : r < n = mod-lt c h in
    let size : n ≡ (n - r) + r = omega arith in
    let split : c ≡ c / n * n + r = sym (div-add-mod' c n) in
    let first = picks ts p.max_failures h (n - r) r (c / n) c split (omega arith) (omega arith) in
    let second =
      picks ts p.max_failures h r 0 (c / n + 1) (c + (n - r)) (grind arith) (omega arith)
        (omega arith) in
    ap (λ k. (select_times k p).0) size
    ∙ select_times-append ts p.max_failures h (n - r) r p
    ∙ ap (λ x. x.0 ++ (select_times r x.1).0) first
    ∙ ap (λ x. map ok (take (n - r) (drop r ts)) ++ x.0) second
    ∙ ap (λ l. map ok l ++ map ok (take r ts))
        (take_all (n - r) (drop r ts) (omega (arith, length-drop r ts)))
    ∙ sym (map-append ok (drop r ts) (take r ts))
