-- ===== src/Addresses/RoundTrip.antt =====
-- An address that is printed is read back.
use Prim.Native.Char.{code}
use Prim.Native.String as Text
use text.Mathlib.TextLemmas.{nil-append, cons-append}
use batch_shutdown_assistant.Prelude.{
  ℕ, zero, suc, ◌/◌, ◌%◌, ◌^◌, ◌<◌, String, concat, decimal, ◌≡◌, ◌∙◌, refl, ap, Bool, true, false,
  not, ◌&&◌, Option, none, some, [], ◌∷◌, num_eq, arith, Bool-cases, inl, inr,
}
use batch_shutdown_assistant.Addresses.{
  address_text, all_digits, number_from, read_octet, split_dots, read_parts, read_address,
}

abbrev has_no_dot : String → Bool
has_no_dot Text.[] = true
has_no_dot (Text.◌∷◌ c s) = not (num_eq (code c) b'.') && has_no_dot s

abbrev is_octet : ℕ → Option ℕ → Bool
is_octet n none = false
is_octet n (some m) = num_eq m n

-- Whether a number is read back from its print, and its print has no dot.
good : ℕ → Bool
good n = is_octet n (read_octet (decimal n)) && has_no_dot (decimal n)

all_good : ℕ → Bool
all_good zero = true
all_good (suc n) = good n && all_good n

-- All numbers below 256 were tried.
octets_good : all_good 256 ≡ true
unfolding all_good good read_octet all_digits number_from decimal
octets_good = refl

all_good-good : (m n : ℕ) → n < m → all_good m ≡ true → good n ≡ true
unfolding all_good
all_good-good zero n lt h = absurd (omega arith)
all_good-good (suc m) n lt h = elim (Bool-cases (num_eq m n)) [
  | inl same ↦
      let e : n ≡ m = ground (arith, same) in
      let there : good m ≡ true = ground (arith, h) in ap good e ∙ there
  | inr other ↦ all_good-good m n (ground (arith, lt, other)) (ground (arith, h))
]

read_octet-decimal : (n : ℕ) → n < 256 → read_octet (decimal n) ≡ some n
unfolding good
read_octet-decimal n lt = ground (arith, all_good-good 256 n lt octets_good)

decimal-has_no_dot : (n : ℕ) → n < 256 → has_no_dot (decimal n) ≡ true
unfolding good
decimal-has_no_dot n lt = ground (arith, all_good-good 256 n lt octets_good)

split_dots-last : (s : String) → has_no_dot s ≡ true → split_dots s ≡ s ∷ []
unfolding split_dots
split_dots-last Text.[] h = refl
split_dots-last (Text.◌∷◌ c s) h =
    let plain : num_eq (code c) b'.' ≡ false = ground (arith, h) in
    rw plain (rw (split_dots-last s (ground (arith, h))) refl)

split_dots-dot :
    (s t : String) → has_no_dot s ≡ true → split_dots (concat s (concat "." t)) ≡ s ∷ split_dots t
unfolding split_dots
split_dots-dot Text.[] t h =
    ap split_dots (nil-append (concat "." t))
    ∙ ap split_dots (cons-append "." Text.[] t)
    ∙ ap (λ u. split_dots (Text.◌∷◌ "." u)) (nil-append t)
split_dots-dot (Text.◌∷◌ c s) t h =
    let plain : num_eq (code c) b'.' ≡ false = ground (arith, h) in
    ap split_dots (cons-append c s (concat "." t))
    ∙ rw plain (rw (split_dots-dot s t (ground (arith, h))) refl)

split_dots-address_text :
    (n : ℕ)
    → n < 2 ^ 32
    → split_dots (address_text n)
      ≡ decimal (n / 2 ^ 24)
        ∷ decimal (n / 2 ^ 16 % 256)
        ∷ decimal (n / 2 ^ 8 % 256)
        ∷ decimal (n % 256)
        ∷ []
unfolding address_text
split_dots-address_text n lt =
    let a = decimal (n / 2 ^ 24) in
    let b = decimal (n / 2 ^ 16 % 256) in
    let c = decimal (n / 2 ^ 8 % 256) in
    let d = decimal (n % 256) in
    split_dots-dot a (concat b (concat "." (concat c (concat "." d))))
      (decimal-has_no_dot (n / 2 ^ 24) (omega arith))
    ∙ ap (λ ss. a ∷ ss)
        (split_dots-dot b (concat c (concat "." d))
            (decimal-has_no_dot (n / 2 ^ 16 % 256) (omega arith))
          ∙ ap (λ ss. b ∷ ss)
              (split_dots-dot c d (decimal-has_no_dot (n / 2 ^ 8 % 256) (omega arith))
                ∙ ap (λ ss. c ∷ ss)
                    (split_dots-last d (decimal-has_no_dot (n % 256) (omega arith)))))

-- Every 32-bit address is read back from its print.
read_address-address_text : (n : ℕ) → n < 2 ^ 32 → read_address (address_text n) ≡ some n
unfolding read_address read_parts
read_address-address_text n lt =
    ap read_parts (split_dots-address_text n lt)
    ∙ rw
        (
          read_octet-decimal (n / 2 ^ 24) (omega arith),
          read_octet-decimal (n / 2 ^ 16 % 256) (omega arith),
          read_octet-decimal (n / 2 ^ 8 % 256) (omega arith),
          read_octet-decimal (n % 256) (omega arith),
        )
        (ap some (omega arith))
