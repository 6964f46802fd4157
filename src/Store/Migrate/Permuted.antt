-- ===== src/Store/Migrate/Permuted.antt =====
-- What is the same for two orders of the same migrations.
use mathlib.Core.Bool.{Bool-set}
use mathlib.Core.List.{Perm, foldr}
use mathlib.Core.List.Perm
use claude_gate.Prelude.{
  Bool, ◌||◌, ◌&&◌, ◌↔◌, sym, ◌≡◌, refl, ap, ◌∙◌, true, false, List, [], ◌∷◌, map, arith, ℤ, All,
}
use claude_gate.Store.Migrate.{eq_int, has_version, Migration}

abbrev pub version_of : Migration → ℤ
version_of m = m.version

or_swap : (a b c : Bool) → (a || (b || c)) ≡ (b || (a || c))
or_swap true true c = refl
or_swap true false c = refl
or_swap false true c = refl
or_swap false false c = refl

and_swap : (a b c : Bool) → (a && (b && c)) ≡ (b && (a && c))
and_swap true true c = refl
and_swap true false c = refl
and_swap false true c = refl
and_swap false false c = refl

has_version-foldr :
    (v : ℤ) (ms : List Migration)
    → has_version v (map version_of ms) ≡ foldr (λ m b. eq_int m.version v || b) false ms
unfolding has_version
has_version-foldr v [] = refl
has_version-foldr v (m ∷ ms) = ap (λ b. eq_int m.version v || b) (has_version-foldr v ms)

pub has_version-perm :
    (v : ℤ) {ms ns : List Migration}
    → Perm ms ns
    → has_version v (map version_of ms) ≡ has_version v (map version_of ns)
has_version-perm v {ms} {ns} p =
    has_version-foldr v ms
    ∙ Perm.foldr-eq Bool-set (λ m b. eq_int m.version v || b)
        (λ m n b. or_swap (eq_int m.version v) (eq_int n.version v) b) p false
    ∙ sym (has_version-foldr v ns)

All-foldr :
    (p : Migration → Bool) (ms : List Migration)
    → All (λ m. p m ≡ true) ms ↔ (foldr (λ m b. p m && b) true ms ≡ true)
All-foldr p [] = (λ h. refl, λ h. tt)
All-foldr p (m ∷ ms) = (
  λ h. ground (arith, h.0, (All-foldr p ms).0 h.1),
  λ h. (ground arith, (All-foldr p ms).1 (ground arith)),
)

pub All-perm :
    (p : Migration → Bool) {ms ns : List Migration}
    → Perm ms ns
    → All (λ m. p m ≡ true) ms
    → All (λ m. p m ≡ true) ns
All-perm p {ms} {ns} same h = (All-foldr p ns).1 (
    sym (Perm.foldr-eq Bool-set (λ m b. p m && b) (λ m n b. and_swap (p m) (p n) b) same true)
    ∙ (All-foldr p ms).0 h)
