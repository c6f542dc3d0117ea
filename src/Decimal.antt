-- ===== src/Decimal.antt =====
-- `strconv.Itoa` and `strconv.Atoi`, by which a role's ID becomes the external name and back.
pub mod RoundTrip
use provider_strapi.Prelude.{
  ℕ, zero, suc, ◌+◌, ◌-◌, ◌*◌, ◌/◌, ◌%◌, List, [], ◌∷◌, ◌++◌, Option, none, some, ◌&&◌, ltb, leb,
  ◌==◌, if◌then◌else◌,
}
use provider_strapi.Prelude.Int.{ℤ, pos, negsuc, int_limit}
use provider_strapi.Text.{Text}

abbrev pub minus : ℕ
minus = b'-'

abbrev pub plus : ℕ
plus = b'+'

-- the digits of `n`; the fuel is above `n`
decimal : ℕ → ℕ → Text
decimal zero n = []
decimal (suc fuel) n =
    let high = decimal fuel (n / 10) in
    if ltb n 10 then (b'0' + n) ∷ [] else high ++ (b'0' + n % 10) ∷ []

-- `strconv.Itoa(i)`
unfoldable pub itoa : ℤ → Text
unfolding decimal
itoa (pos n) = decimal (suc n) n
itoa (negsuc n) = minus ∷ decimal (suc (suc n)) (suc n)

-- the loop over the digits; `none` is a byte that is no digit
digits : ℕ → Text → Option ℕ
digits value [] = some value
digits value (c ∷ s) =
    let rest = digits (value * 10 + (c - b'0')) s in if leb b'0' c && leb c b'9' then rest else none

-- an unsigned number has at least one digit
unsigned : Text → Option ℕ
unfolding digits
unsigned [] = none
unsigned (c ∷ s) = digits 0 (c ∷ s)

-- the bounds of `int`
positive : Option ℕ → Option ℤ
positive none = none
positive (some n) = if ltb n int_limit then some (pos n) else none

negative : Option ℕ → Option ℤ
negative none = none
negative (some zero) = some (pos 0)
negative (some (suc n)) = if ltb n int_limit then some (negsuc n) else none

-- `strconv.Atoi(s)`; `none` is the error
unfoldable pub atoi : Text → Option ℤ
unfolding unsigned positive negative
atoi [] = none
atoi (c ∷ s) =
    if c == minus
    then negative (unsigned s)
    else if c == plus
    then positive (unsigned s)
    else positive (unsigned (c ∷ s))
