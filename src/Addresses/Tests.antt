-- ===== src/Addresses/Tests.antt =====
-- Tests of the reading of addresses.
use batch_shutdown_assistant.Prelude.{◌≡◌, refl, none, decimal}
use batch_shutdown_assistant.Addresses.{
  address_text, read_address, read_parts, read_octet, split_dots, all_digits, number_from,
}

first_address : address_text 167772161 ≡ "10.0.0.1"
unfolding address_text decimal
first_address = refl

leading_zero : read_address "10.0.0.01" ≡ none
unfolding read_address read_parts read_octet split_dots all_digits number_from
leading_zero = refl

too_few : read_address "10.0.1" ≡ none
unfolding read_address read_parts read_octet split_dots all_digits number_from
too_few = refl
