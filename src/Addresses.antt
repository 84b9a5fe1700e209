-- ===== src/Addresses.antt =====
-- `ipaddress.IPv4Address` of Python's library: an address is its number. Its print is four decimal
-- octets; its parse wants ASCII digits, at most three, no leading zero, and no more than 255.
pub mod RoundTrip
mod Tests
use Prim.Native.Char.{Char, code}
use Prim.Native.String as Text
use batch_shutdown_assistant.Prelude.{
  ℕ, ◌+◌, ◌-◌, ◌*◌, ◌/◌, ◌%◌, ◌^◌, String, concat, len, decimal, Bool, true, false, not, ◌&&◌, ◌||◌,
  Option, none, some, List, [], ◌∷◌, ltb, leb, num_eq, starts_with, ◌==◌, if◌then◌else◌,
}

-- `str(IPv4Address(n))`
unfoldable pub address_text : ℕ → String
address_text n = concat (decimal (n / 2 ^ 24)) (
    concat "." (
      concat (decimal (n / 2 ^ 16 % 256))
        (concat "." (concat (decimal (n / 2 ^ 8 % 256)) (concat "." (decimal (n % 256)))))))

abbrev pub is_ascii_digit : Char → Bool
is_ascii_digit c = leb b'0' (code c) && leb (code c) b'9'

-- `s.isascii() and s.isdigit()`, for a text that is not empty
unfoldable pub all_digits : String → Bool
all_digits Text.[] = true
all_digits (Text.◌∷◌ c s) = is_ascii_digit c && all_digits s

-- `int(s)`, from the digits read so far
unfoldable pub number_from : ℕ → String → ℕ
number_from n Text.[] = n
number_from n (Text.◌∷◌ c s) = number_from (n * 10 + (code c - b'0')) s

-- `_parse_octet`
unfoldable pub read_octet : String → Option ℕ
unfolding all_digits number_from
read_octet s =
    if num_eq (len s) 0 || not (all_digits s) || ltb 3 (len s)
    then none
    else if not (s == "0") && starts_with s "0"
    then none
    else if ltb 255 (number_from 0 s)
    then none
    else some (number_from 0 s)

abbrev pub put_char : Char → List String → List String
put_char c [] = Text.◌∷◌ c Text.[] ∷ []
put_char c (s ∷ ss) = Text.◌∷◌ c s ∷ ss

-- `s.split(".")`
unfoldable pub split_dots : String → List String
split_dots Text.[] = Text.[] ∷ []
split_dots (Text.◌∷◌ c s) =
    let rest = split_dots s in if num_eq (code c) b'.' then Text.[] ∷ rest else put_char c rest

abbrev pub join_octets : Option ℕ → Option ℕ → Option ℕ → Option ℕ → Option ℕ
join_octets (some a) (some b) (some c) (some d) = some (a * 2 ^ 24 + b * 2 ^ 16 + c * 2 ^ 8 + d)
join_octets _ _ _ _ = none

-- `_ip_int_from_string` on the parts
unfoldable pub read_parts : List String → Option ℕ
unfolding read_octet
read_parts (a ∷ b ∷ c ∷ d ∷ []) =
    join_octets (read_octet a) (read_octet b) (read_octet c) (read_octet d)
read_parts _ = none

-- `int(IPv4Address(s))`, or `none` for an `AddressValueError`
unfoldable pub read_address : String → Option ℕ
unfolding split_dots read_parts
read_address s = read_parts (split_dots s)
