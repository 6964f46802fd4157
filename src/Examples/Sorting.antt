-- ===== src/Examples/Sorting.antt =====
-- A sort for the parameter that stands for sort.Slice.
use mathlib.Core.List.{Perm}
use mathlib.Core.List.Perm
use claude_gate.Prelude.{
  ◌≡◌, Bool, true, false, List, [], ◌∷◌, arith, if◌then◌else◌, inl, inr, Bool-cases, ℤ, pos, negsuc,
  All, All-map,
}
use claude_gate.Store.Migrate.{lt_int, Migration}
use claude_gate.Store.Migrate.Order.{Sorted}

-- Insertion sort.
unfoldable pub insert : (Migration → Migration → Bool) → Migration → List Migration → List Migration
insert less m [] = m ∷ []
insert less m (x ∷ xs) = let rest = insert less m xs in if less m x then m ∷ x ∷ xs else x ∷ rest

unfoldable pub sort : (Migration → Migration → Bool) → List Migration → List Migration
unfolding insert
sort less [] = []
sort less (m ∷ ms) = insert less m (sort less ms)

abbrev less : Migration → Migration → Bool
less a b = lt_int a.version b.version

lt_int_trans : (a b c : ℤ) → lt_int a b ≡ true → lt_int c b ≡ false → lt_int c a ≡ false
unfolding lt_int
lt_int_trans (pos a) (pos b) (pos c) h k = ground arith
lt_int_trans (pos a) (pos b) (negsuc c) h k = ground arith
lt_int_trans (pos a) (negsuc b) c h k = ground arith
lt_int_trans (negsuc a) (pos b) (pos c) h k = ground arith
lt_int_trans (negsuc a) (pos b) (negsuc c) h k = ground arith
lt_int_trans (negsuc a) (negsuc b) (pos c) h k = ground arith
lt_int_trans (negsuc a) (negsuc b) (negsuc c) h k = ground arith

lt_int_asym : (a b : ℤ) → lt_int a b ≡ true → lt_int b a ≡ false
unfolding lt_int
lt_int_asym (pos a) (pos b) h = ground arith
lt_int_asym (pos a) (negsuc b) h = ground arith
lt_int_asym (negsuc a) (pos b) h = ground arith
lt_int_asym (negsuc a) (negsuc b) h = ground arith

insert-All :
    (P : Migration → Type 0) (m : Migration) (xs : List Migration)
    → P m
    → All P xs
    → All P (insert less m xs)
unfolding insert
insert-All P m [] h k = (h, tt)
insert-All P m (x ∷ xs) h k = elim (Bool-cases (less m x)) [
  | inl lt ↦ rw lt (h, k)
  | inr ge ↦ rw ge (k.0, insert-All P m xs h k.1)
]

insert-Sorted : (m : Migration) (xs : List Migration) → Sorted xs → Sorted (insert less m xs)
unfolding insert
insert-Sorted m [] h = (tt, tt)
insert-Sorted m (x ∷ xs) h = elim (Bool-cases (less m x)) [
  | inl lt ↦ rw lt (
    (
      lt_int_asym m.version x.version lt,
      All-map xs (λ y ge. lt_int_trans m.version x.version y.version lt ge) h.0,
    ),
    h,
  )
  | inr ge ↦ rw ge (insert-All (λ y. less y x ≡ false) m xs ge h.0, insert-Sorted m xs h.1)
]

pub sort-Sorted : (ms : List Migration) → Sorted (sort less ms)
unfolding sort
sort-Sorted [] = tt
sort-Sorted (m ∷ ms) = insert-Sorted m (sort less ms) (sort-Sorted ms)

insert-Perm : (m : Migration) (xs : List Migration) → Perm (insert less m xs) (m ∷ xs)
unfolding insert
insert-Perm m [] = Perm.refl (m ∷ [])
insert-Perm m (x ∷ xs) = elim (Bool-cases (less m x)) [
  | inl lt ↦ rw lt (Perm.refl (m ∷ x ∷ xs))
  | inr ge ↦ rw ge (Perm.trans (Perm.cons x (insert-Perm m xs)) (Perm.swap m x xs))
]

pub sort-Perm : (ms : List Migration) → Perm (sort less ms) ms
unfolding sort
sort-Perm [] = Perm.refl []
sort-Perm (m ∷ ms) = Perm.trans (insert-Perm m (sort less ms)) (Perm.cons m (sort-Perm ms))
