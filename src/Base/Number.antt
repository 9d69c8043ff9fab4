-- ===== src/Base/Number.antt =====
-- Go's `int`, its comparisons, and `strconv.Itoa`, `%d` and `strconv.Atoi`.
pub mod Laws
use Prim.Native.Nat.{ℕ, zero, suc, ◌+◌, ◌-◌, ◌*◌, ◌/◌, ◌%◌, ◌^◌, compare, Ordering}
use Prim.Native.Char.{code}
use Prim.Native.String.{String, ◌++◌ as ◌<>◌}
use mathlib.Core.Bool.{Bool, true, false, ◌&&◌}
use mathlib.Core.Option.{Option, none, some}
use native.Mathlib.Decide.{ℕ_discrete}
use workbench_operator.Base.Equality.{Eq, ◌==◌, if◌then◌else◌}

abbrev pub ltb : ℕ → ℕ → Bool
ltb a b = elim (compare a b) [ Ordering.lt ↦ true | _ ↦ false ]

abbrev pub leb : ℕ → ℕ → Bool
leb a b = elim (compare a b) [ Ordering.gt ↦ false | _ ↦ true ]

-- `negsuc n` is -(n + 1).
pub data ℤ : Type 0 where
  pos : ℕ → ℤ
  negsuc : ℕ → ℤ

ℤ_discrete : Discrete ℤ
ℤ_discrete = hlevel ℕ_discrete

instance unfoldable pub int_eq : Eq ℤ
unfolding ℤ_discrete
int_eq = record { dec = ℤ_discrete }

-- a < b for integers.
abbrev pub ltb_ℤ : ℤ → ℤ → Bool
ltb_ℤ (pos a) (pos b) = ltb a b
ltb_ℤ (pos _) (negsuc _) = false
ltb_ℤ (negsuc _) (pos _) = true
ltb_ℤ (negsuc a) (negsuc b) = ltb b a

abbrev pub leb_ℤ : ℤ → ℤ → Bool
leb_ℤ (pos a) (pos b) = leb a b
leb_ℤ (pos _) (negsuc _) = false
leb_ℤ (negsuc _) (pos _) = true
leb_ℤ (negsuc a) (negsuc b) = leb b a

-- The conversion `int32(n)`: the low 32 bits, read as a signed number.
abbrev signed32 : ℕ → ℤ
signed32 m = if ltb m (2 ^ 31) then pos m else negsuc (2 ^ 32 - 1 - m)

unfoldable pub to_int32 : ℤ → ℤ
to_int32 (pos n) = signed32 (n % 2 ^ 32)
to_int32 (negsuc n) = signed32 (2 ^ 32 - 1 - n % 2 ^ 32)

digit : ℕ → String
digit zero = "0"
digit (suc zero) = "1"
digit (suc (suc zero)) = "2"
digit (suc (suc (suc zero))) = "3"
digit (suc (suc (suc (suc zero)))) = "4"
digit (suc (suc (suc (suc (suc zero))))) = "5"
digit (suc (suc (suc (suc (suc (suc zero)))))) = "6"
digit (suc (suc (suc (suc (suc (suc (suc zero))))))) = "7"
digit (suc (suc (suc (suc (suc (suc (suc (suc zero)))))))) = "8"
digit (suc (suc (suc (suc (suc (suc (suc (suc (suc _))))))))) = "9"

-- The decimal digits of `n`. A number has at most as many digits as its own value and one, so
-- `suc n` is fuel enough.
decimal : ℕ → ℕ → String
decimal zero n = ""
decimal (suc fuel) n =
    let more = decimal fuel (n / 10) <> digit (n % 10) in if ltb n 10 then digit n else more

unfoldable pub itoa : ℤ → String
unfolding decimal digit
itoa (pos n) = decimal (suc n) n
itoa (negsuc n) = "-" <> decimal (suc (suc n)) (suc n)

-- The value of a run of digits, read from the left; `none` at any other character.
read_digits : ℕ → String → Option ℕ
read_digits acc String.[] = some acc
read_digits acc (String.◌∷◌ c s) =
    let rest = read_digits (acc * 10 + (code c - b'0')) s in
    if leb b'0' (code c) && leb (code c) b'9' then rest else none

unsigned : String → Option ℕ
unfolding read_digits
unsigned String.[] = none
unsigned (String.◌∷◌ c s) = read_digits 0 (String.◌∷◌ c s)

-- The range of int64.
abbrev in_range_pos : ℕ → Option ℤ
in_range_pos n = if ltb n (2 ^ 63) then some (pos n) else none

abbrev in_range_neg : ℕ → Option ℤ
in_range_neg zero = some (pos 0)
in_range_neg (suc n) = if ltb n (2 ^ 63) then some (negsuc n) else none

abbrev and_then {ℓ κ} : {A : Type ℓ} {B : Type κ} → Option A → (A → Option B) → Option B
and_then none f = none
and_then (some a) f = f a

-- `none` stands for the error: an empty text, a character that is no digit, or a value that is
-- out of range.
unfoldable pub atoi : String → Option ℤ
unfolding unsigned
atoi String.[] = none
atoi (String.◌∷◌ c s) =
    if code c == b'-'
    then and_then (unsigned s) in_range_neg
    else if code c == b'+'
    then and_then (unsigned s) in_range_pos
    else and_then (unsigned (String.◌∷◌ c s)) in_range_pos
  where
    instance nat_eq : Eq ℕ
    nat_eq = record { dec = ℕ_discrete }
