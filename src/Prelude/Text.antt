-- ===== src/Prelude/Text.antt =====
-- Text that `format!` builds: its literal pieces and its numbers, in order.
use Prim.Native.String.{◌++◌ as join}
use omsrs.Prelude.{ℕ, zero, suc, ◌/◌, ◌%◌, String, List, [], ◌∷◌, ltb, ◌==◌, if◌then◌else◌}

digit : ℕ → String
digit n =
    if n == 0
    then "0"
    else if n == 1
    then "1"
    else if n == 2
    then "2"
    else if n == 3
    then "3"
    else if n == 4
    then "4"
    else if n == 5
    then "5"
    else if n == 6
    then "6"
    else if n == 7
    then "7"
    else if n == 8
    then "8"
    else "9"

digits : ℕ → ℕ → String
unfolding digit
digits zero n = ""
digits (suc fuel) n =
    let front = digits fuel (n / 10) in if ltb n 10 then digit n else join front (digit (n % 10))

-- The decimal numeral of a number: its length is at most the number plus one.
unfoldable pub show : ℕ → String
unfolding digits
show n = digits (suc n) n

unfoldable pub concat : List String → String
concat [] = ""
concat (s ∷ ss) = join s (concat ss)
