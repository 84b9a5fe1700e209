-- ===== src/Prelude/Text.antt =====
-- Python's `str` as the native `String`, a list of code points. `str(n)` is `decimal n`.
use Prim.Native.Char.{Char, code}
use Prim.Native.Nat.{ℕ, zero, suc, ◌+◌, ◌/◌, ◌%◌}
use Prim.Native.String.{String, [], ◌∷◌, ◌++◌}
use mathlib.Core.Bool.{Bool, true, ◌&&◌}
use batch_shutdown_assistant.Prelude.Tests.{num_eq, ltb, if◌then◌else◌}

-- len(s)
abbrev pub len : String → ℕ
len [] = 0
len (c ∷ s) = suc (len s)

-- s.isascii()
abbrev pub is_ascii : String → Bool
is_ascii [] = true
is_ascii (c ∷ s) = ltb (code c) 128 && is_ascii s

-- s + t
abbrev pub concat : String → String → String
concat s t = s ++ t

-- s[:n]
abbrev pub take_chars : ℕ → String → String
take_chars zero s = []
take_chars (suc n) [] = []
take_chars (suc n) (c ∷ s) = c ∷ take_chars n s

-- s[n:]
abbrev pub drop_chars : ℕ → String → String
drop_chars zero s = s
drop_chars (suc n) [] = []
drop_chars (suc n) (c ∷ s) = drop_chars n s

digit : ℕ → Char
digit n =
    if num_eq n 0
    then "0"
    else if num_eq n 1
    then "1"
    else if num_eq n 2
    then "2"
    else if num_eq n 3
    then "3"
    else if num_eq n 4
    then "4"
    else if num_eq n 5
    then "5"
    else if num_eq n 6
    then "6"
    else if num_eq n 7
    then "7"
    else if num_eq n 8
    then "8"
    else "9"

-- The digits of `n` before `acc`; the fuel `n + 1` is enough, since each round divides by ten.
decimal_fuel : ℕ → ℕ → String → String
unfolding digit
decimal_fuel zero n acc = acc
decimal_fuel (suc f) n acc =
    let rest = decimal_fuel f (n / 10) (digit (n % 10) ∷ acc) in
    if ltb n 10 then digit n ∷ acc else rest

unfoldable pub decimal : ℕ → String
unfolding decimal_fuel
decimal n = decimal_fuel (n + 1) n []
