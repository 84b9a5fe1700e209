-- ===== src/Imports/Present.antt =====
-- What a turn of an import does to the addresses of the device table.
use batch_shutdown_assistant.Prelude.{
  String, ◌≡◌, ◌∙◌, refl, ap, Bool, true, false, ◌||◌, none, some, List, [], ◌∷◌, ◌++◌, any_row,
  select, arith, eq_iff, eq_refl, Bool-cases, inl, inr, ◌==◌, ok, scalar_one_or_none,
}
use batch_shutdown_assistant.Models.{Device}
use batch_shutdown_assistant.Devices.{has_ip}
use batch_shutdown_assistant.Devices.Rows.{scalar-eq-some}

-- The devices of the addresses that the table has are the same ones.
abbrev pub KeepsAddresses : List Device → List Device → Type 0
KeepsAddresses ds ds' =
    (a : String)
    → any_row (has_ip a) ds ≡ true
    → (any_row (has_ip a) ds' ≡ true) × (select (has_ip a) ds' ≡ select (has_ip a) ds)

pub KeepsAddresses-same : (ds : List Device) → KeepsAddresses ds ds
KeepsAddresses-same ds = λ a h. (h, refl)

pub KeepsAddresses-trans :
    (ds es fs : List Device) → KeepsAddresses ds es → KeepsAddresses es fs → KeepsAddresses ds fs
KeepsAddresses-trans ds es fs first second = λ a h.
    let (there, same) = first a h in let (there', same') = second a there in (there', same' ∙ same)

any-one :
    (p : Device → Bool) (ds : List Device) {d : Device} → select p ds ≡ d ∷ [] → any_row p ds ≡ true
any-one p [] h = absurd (cc h)
any-one p (e ∷ ds) h = elim (Bool-cases (p e)) [
  | inl hit ↦ rw hit refl
  | inr miss ↦ rw miss (any-one p ds (rw miss at h))
]

-- An address that is found in one row is there.
pub found-there :
    (a : String) (ds : List Device) {d : Device}
    → scalar_one_or_none (select (has_ip a) ds) ≡ ok (some d)
    → any_row (has_ip a) ds ≡ true
found-there a ds h = any-one (has_ip a) ds (scalar-eq-some (select (has_ip a) ds) h)

none-there :
    (p : Device → Bool) (ds : List Device)
    → scalar_one_or_none (select p ds) ≡ ok none
    → any_row p ds ≡ false
none-there p [] h = refl
none-there p (e ∷ ds) h = elim (Bool-cases (p e)) [
  | inl hit ↦ absurd (some_row e (select p ds) (rw hit at h))
  | inr miss ↦ rw miss (none-there p ds (rw miss at h))
]
  where
    some_row : (e : Device) (es : List Device) → scalar_one_or_none (e ∷ es) ≡ ok none → ⊥
    some_row e [] k = cc
    some_row e (f ∷ fs) k = cc

any-append :
    (p : Device → Bool) (ds : List Device) (d : Device)
    → any_row p (ds ++ d ∷ []) ≡ (any_row p ds || p d)
any-append p [] d = ground arith
any-append p (e ∷ ds) d = ground (arith, any-append p ds d)

select-other :
    (p : Device → Bool) (ds : List Device) (d : Device)
    → p d ≡ false
    → select p (ds ++ d ∷ []) ≡ select p ds
select-other p [] d h = rw h refl
select-other p (e ∷ ds) d h = elim (Bool-cases (p e)) [
  | inl hit ↦ rw hit (ap (λ es. e ∷ es) (select-other p ds d h))
  | inr miss ↦ rw miss (select-other p ds d h)
]

-- A device with an address that is not there is added.
pub KeepsAddresses-append :
    (a : String) (ds : List Device) (d : Device)
    → scalar_one_or_none (select (has_ip a) ds) ≡ ok none
    → d.ip ≡ some a
    → (any_row (has_ip a) (ds ++ d ∷ []) ≡ true) × KeepsAddresses ds (ds ++ d ∷ [])
KeepsAddresses-append a ds d new own =
    let gone = none-there (has_ip a) ds new in
    (
      any-append (has_ip a) ds d ∙ rw (gone, own) (eq_refl a),
      λ b there.
          let other : has_ip b d ≡ false = elim (Bool-cases (a == b)) [
            | inl same ↦
                let e : a ≡ b = (eq_iff a b).0 same in
                absurd (cc (there, gone, ap (λ x. any_row (has_ip x) ds) e))
            | inr ne ↦ rw own ne
          ] in
          (any-append (has_ip b) ds d ∙ rw there refl, select-other (has_ip b) ds d other),
    )
