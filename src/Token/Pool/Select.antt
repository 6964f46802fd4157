-- ===== src/Token/Pool/Select.antt =====
-- One call of Select of internal/token/pool.go.
use native.Mathlib.Nat.{mod-lt, mod-add-mod, mod-eq_of_lt, add-mod_right}
use claude_gate.Prelude.{
  ℕ, zero, suc, ◌+◌, ◌-◌, ◌%◌, ◌≤◌, ◌<◌, String, ◌≡◌, Bool, true, false, some, List, arith, eqb,
  leb, get_elem?-lt, sym, ◌∙◌, if◌then◌else◌, length, get_elem?, Bool-cases, Option-cases, inl, inr,
  ap, ◌⊎◌,
}
use claude_gate.Prelude.Result.{ok}
use claude_gate.Store.Rows.{RealToken}
use claude_gate.Token.Pool.{TokenPool, u64_mod, select_loop, select_token}

-- `t` stands in the list.
abbrev pub Holds : List RealToken → RealToken → Type 0
Holds ts t = (i : ℕ) × (get_elem? ts i ≡ some t)

module _ (ts : List RealToken) (exclude : String → Bool) (start : ℕ) where
  select_loop_sound :
      (rounds i : ℕ) (t : RealToken)
      → select_loop ts exclude start i rounds ≡ some t
      → Holds ts t × (exclude t.id ≡ false)
  unfolding select_loop
  select_loop_sound zero i t h = ground arith
  select_loop_sound (suc rounds) i t h =
      elim (Option-cases (get_elem? ts ((start + i) % u64_mod % length ts))) [
        | inl gone ↦ select_loop_sound rounds (i + 1) t (ground arith)
        | inr (u, here) ↦ elim (Bool-cases (exclude u.id)) [
          | inl out ↦ select_loop_sound rounds (i + 1) t (ground arith)
          | inr kept ↦ (((start + i) % u64_mod % length ts, ground arith), ground arith)
        ]
      ]

  -- If a later round meets a token that is not excluded, the loop returns one.
  select_loop_complete :
      (rounds i k : ℕ) (u : RealToken)
      → i ≤ k
      → k < i + rounds
      → get_elem? ts ((start + k) % u64_mod % length ts) ≡ some u
      → exclude u.id ≡ false
      → (t : RealToken) × (select_loop ts exclude start i rounds ≡ some t)
  unfolding select_loop
  select_loop_complete zero i k u lo hi here free = absurd (omega arith)
  select_loop_complete (suc rounds) i k u lo hi here free = elim (Bool-cases (eqb i k)) [
    | inl same ↦ (u, ground arith)
    | inr other ↦
        let (t, found) =
          select_loop_complete rounds (i + 1) k u (ground arith) (omega arith) here free in
        elim (Option-cases (get_elem? ts ((start + i) % u64_mod % length ts))) [
          | inl gone ↦ (t, ground arith)
          | inr (v, there) ↦ elim (Bool-cases (exclude v.id)) [
            | inl out ↦ (t, ground arith)
            | inr kept ↦ (v, ground arith)
          ]
        ]
  ]

-- The round in which the loop meets index `j`.
abbrev round_of : ℕ → ℕ → ℕ → ℕ
round_of c n j = if leb (c % n) j then j - c % n else j + n - c % n

round_of-lt : (c n j : ℕ) → j < n → round_of c n j < n
round_of-lt c n j h = ground (arith, mod-lt c {m = n})

round_of-hits : (c n j : ℕ) → j < n → (c + round_of c n j) % n ≡ j
round_of-hits c n j h = sym (mod-add-mod c n (round_of c n j)) ∙ lands (Bool-cases (leb (c % n) j))
  where
    lands : (leb (c % n) j ≡ true) ⊎ (leb (c % n) j ≡ false) → (c % n + round_of c n j) % n ≡ j
    lands (inl ahead) = rw ahead (ap (λ x. x % n) (ground arith) ∙ mod-eq_of_lt h)
    lands (inr behind) =
        rw behind
          (ap (λ x. x % n) (ground (arith, mod-lt c {m = n})) ∙ add-mod_right j n ∙ mod-eq_of_lt h)

-- Select returns only a token that stands in the cached list and is not excluded. It adds one to the
-- counter, modulo 2 ^ 64, unless the list is empty, and touches nothing else.
pub select_token_sound :
    (exclude : String → Bool) (p : TokenPool) (t : RealToken)
    → (select_token exclude p).0 ≡ ok t
    → Holds p.tokens t
      × (exclude t.id ≡ false)
      × ((select_token exclude p).1 ≡ record p { counter = (p.counter + 1) % u64_mod })
unfolding select_token
select_token_sound exclude p t h =
    let found = select_loop_sound p.tokens exclude p.counter (length p.tokens) 0 t in
    (ground (arith, found), ground (arith, found), ground arith)

-- If some token of the cached list is not excluded, Select returns a token, as long as the counter
-- does not wrap within one round over the list.
pub select_token_complete :
    (exclude : String → Bool) (p : TokenPool) (j : ℕ) (u : RealToken)
    → get_elem? p.tokens j ≡ some u
    → exclude u.id ≡ false
    → p.counter + length p.tokens ≤ u64_mod
    → (t : RealToken) × ((select_token exclude p).0 ≡ ok t)
unfolding select_token
select_token_complete exclude p j u here free room =
    let n = length p.tokens in
    let k = round_of p.counter n j in
    let inside = get_elem?-lt p.tokens j u here in
    let low = round_of-lt p.counter n j inside in
    let small : (p.counter + k) % u64_mod ≡ p.counter + k = mod-eq_of_lt (omega arith) in
    let at_k : (p.counter + k) % u64_mod % n ≡ j =
      ap (λ x. x % n) small ∙ round_of-hits p.counter n j inside in
    let (t, found) =
      select_loop_complete p.tokens exclude p.counter n 0 k u (omega arith) (omega arith)
        (rw at_k here) free in
    (t, ground (arith, found))
