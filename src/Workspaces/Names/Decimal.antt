-- ===== src/Workspaces/Names/Decimal.antt =====
-- str() of an integer, for src/runtime/workspaces.py: its characters are digits, and it tells numbers apart.
use Prim.Native.Char.{code}
use tele_cli.Prelude.{
  ◌≡◌, ◌∙◌, refl, sym, ap, ℕ, zero, suc, ◌+◌, ◌-◌, ◌*◌, ◌/◌, ◌%◌, ◌≤◌, ◌<◌, String, arith,
  Bool-cases, inl, inr, ltb,
}
use tele_cli.Workspaces.Names.{digit, emit, str_nat}

value : ℕ → String → ℕ
value n String.[] = n
value n (String.◌∷◌ c s) = value (n * 10 + (code c - 48)) s

code-digit : (n : ℕ) → n < 10 → code (digit n) ≡ 48 + n
unfolding digit
code-digit zero h = refl
code-digit (suc zero) h = refl
code-digit (suc (suc zero)) h = refl
code-digit (suc (suc (suc zero))) h = refl
code-digit (suc (suc (suc (suc zero)))) h = refl
code-digit (suc (suc (suc (suc (suc zero))))) h = refl
code-digit (suc (suc (suc (suc (suc (suc zero)))))) h = refl
code-digit (suc (suc (suc (suc (suc (suc (suc zero))))))) h = refl
code-digit (suc (suc (suc (suc (suc (suc (suc (suc zero)))))))) h = refl
code-digit (suc (suc (suc (suc (suc (suc (suc (suc (suc zero))))))))) h = refl
code-digit (suc (suc (suc (suc (suc (suc (suc (suc (suc (suc n)))))))))) h = absurd (omega arith)

value-emit : (fuel n : ℕ) (s : String) → n < fuel → value 0 (emit fuel n s) ≡ value n s
unfolding emit value
value-emit zero n s h = absurd (omega arith)
value-emit (suc fuel) n s h = elim (Bool-cases (ltb n 10)) [
  | inl e ↦ rw e (ap (λ m. value m s) (ground (arith, e, code-digit n)))
  | inr e ↦ rw e (
      value-emit fuel (n / 10) _ (ground (arith, e))
      ∙ ap (λ m. value m s) (ground (arith, code-digit (n % 10))))
]

pub str_nat_injective : (m n : ℕ) → str_nat m ≡ str_nat n → m ≡ n
unfolding str_nat value
str_nat_injective m n e =
    sym (value-emit (suc m) m String.[] (omega arith))
    ∙ ap (value 0) e
    ∙ value-emit (suc n) n String.[] (omega arith)

-- every character is a digit
abbrev pub AllDigits : String → Type 0
AllDigits String.[] = Unit
AllDigits (String.◌∷◌ c s) = (48 ≤ code c) × (code c ≤ 57) × AllDigits s

abbrev pub IsNumeral : String → Type 0
IsNumeral String.[] = ⊥
IsNumeral (String.◌∷◌ c s) = AllDigits (String.◌∷◌ c s)

emit-IsNumeral : (fuel n : ℕ) (s : String) → n < fuel → AllDigits s → IsNumeral (emit fuel n s)
unfolding emit
emit-IsNumeral zero n s h k = absurd (omega arith)
emit-IsNumeral (suc fuel) n s h k = elim (Bool-cases (ltb n 10)) [
  | inl e ↦ rw e (ground (arith, e, code-digit n), ground (arith, e, code-digit n), k)
  | inr e ↦ rw e (
      emit-IsNumeral fuel (n / 10) _ (ground (arith, e))
        (ground (arith, code-digit (n % 10)), ground (arith, code-digit (n % 10)), k))
]

pub str_nat-IsNumeral : (n : ℕ) → IsNumeral (str_nat n)
unfolding str_nat
str_nat-IsNumeral n = emit-IsNumeral (suc n) n String.[] (omega arith) tt
