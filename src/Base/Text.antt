-- ===== src/Base/Text.antt =====
-- Go text functions that the operator calls: `strconv.Itoa`, and the code points of a text.
pub mod Decimal
use Prim.Native.Nat.{ℕ, zero, suc, ◌/◌, ◌%◌}
use Prim.Native.Char.{code}
use Prim.Native.String.{String, ◌++◌ as ◌<>◌}
use mathlib.Core.Path.{◌≡◌, refl}
use mathlib.Core.List.{List, [], ◌∷◌}
use backup_operator.Base.Tests.{ltb, if◌then◌else◌}
use backup_operator.Base.Int.{ℤ, pos, negsuc}

-- The code points of a text: its bytes, if it is ASCII.
abbrev pub codes : String → List ℕ
codes String.[] = []
codes (String.◌∷◌ c s) = code c ∷ codes s

abbrev pub digit : ℕ → String
digit zero = "0"
digit (suc zero) = "1"
digit (suc (suc zero)) = "2"
digit (suc (suc (suc zero))) = "3"
digit (suc (suc (suc (suc zero)))) = "4"
digit (suc (suc (suc (suc (suc zero))))) = "5"
digit (suc (suc (suc (suc (suc (suc zero)))))) = "6"
digit (suc (suc (suc (suc (suc (suc (suc zero))))))) = "7"
digit (suc (suc (suc (suc (suc (suc (suc (suc zero)))))))) = "8"
digit _ = "9"

-- The decimal text of a number. Each round divides by ten, so `suc n` rounds are enough.
decimal_from : ℕ → ℕ → String
decimal_from zero n = ""
decimal_from (suc f) n =
    let rest = decimal_from f (n / 10) <> digit (n % 10) in if ltb n 10 then digit n else rest

pub decimal : ℕ → String
unfolding decimal_from
decimal n = decimal_from (suc n) n

-- `strconv.Itoa`
unfoldable pub itoa : ℤ → String
unfolding decimal
itoa (pos n) = decimal n
itoa (negsuc n) = "-" <> decimal (suc n)
