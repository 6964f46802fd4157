-- ===== src/Testutil/Decimals.antt =====
-- The digits that testutil/testutil.go prints hold no newline.
use claude_gate.Prelude.{
  ℕ, zero, suc, ◌+◌, ◌/◌, ◌%◌, ◌≡◌, refl, none, List, [], ◌∷◌, ◌++◌, arith, ℤ, pos, negsuc,
}
use claude_gate.Prelude.Bytes.{codes, index_byte}
use claude_gate.Proxy.Tap.{newline}
use claude_gate.Testutil.{digits, decimal}

pub index_byte-append :
    (xs ys : List ℕ)
    → index_byte xs newline ≡ none
    → index_byte ys newline ≡ none
    → index_byte (xs ++ ys) newline ≡ none
unfolding index_byte
index_byte-append [] ys h k = k
index_byte-append (x ∷ xs) ys h k = ground (arith, index_byte-append xs ys)

digits_clean :
    (fuel n : ℕ) (acc : List ℕ)
    → index_byte acc newline ≡ none
    → index_byte (digits fuel n acc) newline ≡ none
unfolding digits index_byte
digits_clean zero n acc h = h
digits_clean (suc fuel) n acc h = ground (arith, digits_clean fuel (n / 10) ((48 + n % 10) ∷ acc))

pub decimal_clean : (z : ℤ) → index_byte (decimal z) newline ≡ none
unfolding decimal
decimal_clean (pos n) = digits_clean (suc n) n [] (unfold index_byte in refl)
decimal_clean (negsuc n) =
    index_byte-append (codes "-") _ (unfold index_byte in refl)
      (digits_clean (suc (suc n)) (suc n) [] (unfold index_byte in refl))
