-- ===== src/Base/Decimal.antt =====
-- The numbers that the `printf` functions write.
use Prim.Native.Nat.{ℕ, zero, suc, ◌+◌, ◌-◌, ◌/◌, ◌%◌}
use mathlib.Core.List.{[], ◌∷◌, ◌++◌}
use cc_learning.Base.Tests.{ltb, if◌then◌else◌}
use cc_learning.Base.Lists.{length, replicate}
use cc_learning.Base.Text.{Bytes}

-- The decimal digits, by `%d` and `%zu`, with fuel for their number.
unfoldable pub decimal_loop : ℕ → ℕ → Bytes → Bytes
decimal_loop zero n after = after
decimal_loop (suc fuel) n after =
    let rest = decimal_loop fuel (n / 10) ((48 + n % 10) ∷ after) in
    if ltb n 10 then (48 + n) ∷ after else rest

unfoldable pub decimal : ℕ → Bytes
unfolding decimal_loop
decimal n = decimal_loop (suc n) n []

-- `%0nd`
unfoldable pub padded : ℕ → ℕ → Bytes
unfolding decimal
padded width n = replicate (width - length (decimal n)) 48 ++ decimal n
