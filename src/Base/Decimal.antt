-- ===== src/Base/Decimal.antt =====
-- strconv.Itoa: decimal notation, as text.
use Prim.Native.Nat.{ℕ, zero, suc, ◌+◌, ◌/◌, ◌%◌}
use Prim.Native.String.{String, ◌++◌}
use mathlib.Core.Path.{◌≡◌, refl}
use llm_gateway.Base.Tests.{if◌then◌else◌, ltb}
use llm_gateway.Base.Int.{ℤ, pos, negsuc}

digit : ℕ → String
digit zero = "0"
digit (suc zero) = "1"
digit (suc (suc zero)) = "2"
digit (suc (suc (suc zero))) = "3"
digit (suc (suc (suc (suc zero)))) = "4"
digit (suc (suc (suc (suc (suc zero))))) = "5"
digit (suc (suc (suc (suc (suc (suc zero)))))) = "6"
digit (suc (suc (suc (suc (suc (suc (suc zero))))))) = "7"
digit (suc (suc (suc (suc (suc (suc (suc (suc zero)))))))) = "8"
digit _ = "9"

-- A number below 10 ^ fuel is written in full; 20 digits hold every 64-bit number.
digits : ℕ → ℕ → String
unfolding digit
digits zero n = ""
digits (suc fuel) n =
    let rest = digits fuel (n / 10) in if ltb n 10 then digit n else (rest ++ digit (n % 10))

unfoldable pub itoa : ℤ → String
unfolding digits
itoa (pos n) = digits 20 n
itoa (negsuc n) = "-" ++ digits 20 (n + 1)

itoa_tests : (itoa (pos 4096) ≡ "4096") × (itoa (negsuc 529) ≡ "-530") × (itoa (pos 0) ≡ "0")
unfolding itoa
itoa_tests = (refl, refl, refl)
