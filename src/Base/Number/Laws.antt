-- ===== src/Base/Number/Laws.antt =====
-- `strconv.Atoi` reads what `strconv.Itoa` prints.
use Prim.Native.Nat.{ℕ, zero, suc, ◌+◌, ◌*◌, ◌/◌, ◌%◌, ◌^◌, ◌≤◌, ◌<◌}
use Prim.Native.Char.{code}
use Prim.Native.String.append
use Prim.Native.String.{String, ◌++◌ as ◌<>◌}
use text.Mathlib.TextLemmas.{append_assoc, append-nil, cons≢nil, append-ne-nil_of_right_ne-nil}
use mathlib.Core.Path.{◌≡◌, refl, sym, ap, ◌∙◌}
use mathlib.Core.Logic.{◌≢◌, inl, inr}
use mathlib.Core.Option.{some}
use native.Mathlib.Omega.{arith}
use workbench_operator.Base.Equality.{nat_eq, Bool-cases}
use workbench_operator.Base.Number.{ltb, pos, digit, decimal, itoa, read_digits, unsigned, atoi}

read_digits-digit :
    (d acc : ℕ) (t : String)
    → d < 10
    → read_digits acc (digit d <> t) ≡ read_digits (acc * 10 + d) t
unfolding read_digits digit
read_digits-digit zero acc t h = rw (append.cons, append.nil) refl
read_digits-digit (suc zero) acc t h = rw (append.cons, append.nil) refl
read_digits-digit (suc (suc zero)) acc t h = rw (append.cons, append.nil) refl
read_digits-digit (suc (suc (suc zero))) acc t h = rw (append.cons, append.nil) refl
read_digits-digit (suc (suc (suc (suc zero)))) acc t h = rw (append.cons, append.nil) refl
read_digits-digit (suc (suc (suc (suc (suc zero))))) acc t h = rw (append.cons, append.nil) refl
read_digits-digit (suc (suc (suc (suc (suc (suc zero)))))) acc t h =
    rw (append.cons, append.nil) refl
read_digits-digit (suc (suc (suc (suc (suc (suc (suc zero))))))) acc t h =
    rw (append.cons, append.nil) refl
read_digits-digit (suc (suc (suc (suc (suc (suc (suc (suc zero)))))))) acc t h =
    rw (append.cons, append.nil) refl
read_digits-digit (suc (suc (suc (suc (suc (suc (suc (suc (suc zero))))))))) acc t h =
    rw (append.cons, append.nil) refl
read_digits-digit (suc (suc (suc (suc (suc (suc (suc (suc (suc (suc n)))))))))) acc t h =
    absurd (omega arith)

read_digits-decimal :
    (fuel n : ℕ) (t : String) → n < fuel → read_digits 0 (decimal fuel n <> t) ≡ read_digits n t
unfolding decimal
read_digits-decimal zero n t h = absurd (omega arith)
read_digits-decimal (suc fuel) n t h = elim (Bool-cases (ltb n 10)) [
  | inl small ↦
      rw small (read_digits-digit n 0 t (ground arith) ∙ ap (λ m. read_digits m t) (omega arith))
  | inr large ↦
      rw (large, append_assoc)
        (read_digits-decimal fuel (n / 10) (digit (n % 10) <> t) (ground arith)
          ∙ read_digits-digit (n % 10) (n / 10) t (omega arith)
          ∙ ap (λ m. read_digits m t) (omega arith))
]

-- Every character is a decimal digit.
abbrev pub IsNumeral : String → Type 0
IsNumeral String.[] = Unit
IsNumeral (String.◌∷◌ c s) = (b'0' ≤ code c) × (code c ≤ b'9') × IsNumeral s

digit-IsNumeral : (d : ℕ) → IsNumeral (digit d)
unfolding digit
digit-IsNumeral zero = omega arith
digit-IsNumeral (suc zero) = omega arith
digit-IsNumeral (suc (suc zero)) = omega arith
digit-IsNumeral (suc (suc (suc zero))) = omega arith
digit-IsNumeral (suc (suc (suc (suc zero)))) = omega arith
digit-IsNumeral (suc (suc (suc (suc (suc zero))))) = omega arith
digit-IsNumeral (suc (suc (suc (suc (suc (suc zero)))))) = omega arith
digit-IsNumeral (suc (suc (suc (suc (suc (suc (suc zero))))))) = omega arith
digit-IsNumeral (suc (suc (suc (suc (suc (suc (suc (suc zero)))))))) = omega arith
digit-IsNumeral (suc (suc (suc (suc (suc (suc (suc (suc (suc n))))))))) = omega arith

append-IsNumeral : (s t : String) → IsNumeral s → IsNumeral t → IsNumeral (s <> t)
append-IsNumeral String.[] t h k = rw append.nil k
append-IsNumeral (String.◌∷◌ c s) t (l, u, h) k = rw append.cons (l, u, append-IsNumeral s t h k)

decimal-IsNumeral : (fuel n : ℕ) → IsNumeral (decimal fuel n)
unfolding decimal
decimal-IsNumeral zero n = tt
decimal-IsNumeral (suc fuel) n = elim (Bool-cases (ltb n 10)) [
  | inl small ↦ rw small (digit-IsNumeral n)
  | inr large ↦ rw large (
      append-IsNumeral (decimal fuel (n / 10)) (digit (n % 10)) (decimal-IsNumeral fuel (n / 10))
        (digit-IsNumeral (n % 10)))
]

pub itoa-IsNumeral : (n : ℕ) → IsNumeral (itoa (pos n))
unfolding itoa
itoa-IsNumeral n = decimal-IsNumeral (suc n) n

atoi-numeral :
    (s : String) (n : ℕ)
    → IsNumeral s
    → read_digits 0 s ≡ some n
    → s ≢ ""
    → n < 2 ^ 63
    → atoi s ≡ some (pos n)
unfolding atoi unsigned
atoi-numeral String.[] n d e f h = absurd (f refl)
atoi-numeral (String.◌∷◌ c s) n d e f h = ground arith

digit-ne-nil : (d : ℕ) → digit d ≢ ""
unfolding digit
digit-ne-nil zero e = cons≢nil e
digit-ne-nil (suc zero) e = cons≢nil e
digit-ne-nil (suc (suc zero)) e = cons≢nil e
digit-ne-nil (suc (suc (suc zero))) e = cons≢nil e
digit-ne-nil (suc (suc (suc (suc zero)))) e = cons≢nil e
digit-ne-nil (suc (suc (suc (suc (suc zero))))) e = cons≢nil e
digit-ne-nil (suc (suc (suc (suc (suc (suc zero)))))) e = cons≢nil e
digit-ne-nil (suc (suc (suc (suc (suc (suc (suc zero))))))) e = cons≢nil e
digit-ne-nil (suc (suc (suc (suc (suc (suc (suc (suc zero)))))))) e = cons≢nil e
digit-ne-nil (suc (suc (suc (suc (suc (suc (suc (suc (suc n))))))))) e = cons≢nil e

decimal-ne-nil : (fuel n : ℕ) → decimal (suc fuel) n ≢ ""
unfolding decimal
decimal-ne-nil fuel n = elim (Bool-cases (ltb n 10)) [
  | inl small ↦ rw small (digit-ne-nil n)
  | inr large ↦
      rw large (append-ne-nil_of_right_ne-nil (decimal fuel (n / 10)) (digit-ne-nil (n % 10)))
]

-- Each number of the range is read back from its decimal text.
pub atoi-itoa : (n : ℕ) → n < 2 ^ 63 → atoi (itoa (pos n)) ≡ some (pos n)
unfolding itoa read_digits
atoi-itoa n h =
    atoi-numeral (decimal (suc n) n) n (decimal-IsNumeral (suc n) n)
      (ap (read_digits 0) (sym (append-nil (decimal (suc n) n)))
        ∙ read_digits-decimal (suc n) n "" (omega arith))
      (decimal-ne-nil n n) h
