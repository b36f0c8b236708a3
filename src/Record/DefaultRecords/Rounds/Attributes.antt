-- ===== src/Record/DefaultRecords/Rounds/Attributes.antt =====
-- The attributes of a batch that is built.
use aiokafka.Base.{
  ℕ, zero, suc, ◌<◌, Bool, true, false, not, ◌≡◌, refl, arith, eqb, bit_and, bit_or, if◌then◌else◌,
}
use aiokafka.Record.DefaultRecords.{
  codec_mask, timestamp_type_mask, transactional_mask, control_mask,
}

-- What the masks see of the attributes that the builder writes.
abbrev pub Attributes : ℕ → Bool → Type 0
Attributes c t =
    let a = bit_or c (if t then transactional_mask else 0) in
    (bit_and a codec_mask ≡ c)
    × (bit_and a timestamp_type_mask ≡ 0)
    × (a < 32768)
    × (eqb (bit_and a transactional_mask) 0 ≡ not t)
    × (bit_and a control_mask ≡ 0)

pub attributes_lem : (c : ℕ) → c < 8 → (t : Bool) → Attributes c t
attributes_lem zero h true = (refl, refl, omega arith, refl, refl)
attributes_lem zero h false = (refl, refl, omega arith, refl, refl)
attributes_lem (suc zero) h true = (refl, refl, omega arith, refl, refl)
attributes_lem (suc zero) h false = (refl, refl, omega arith, refl, refl)
attributes_lem (suc (suc zero)) h true = (refl, refl, omega arith, refl, refl)
attributes_lem (suc (suc zero)) h false = (refl, refl, omega arith, refl, refl)
attributes_lem (suc (suc (suc zero))) h true = (refl, refl, omega arith, refl, refl)
attributes_lem (suc (suc (suc zero))) h false = (refl, refl, omega arith, refl, refl)
attributes_lem (suc (suc (suc (suc zero)))) h true = (refl, refl, omega arith, refl, refl)
attributes_lem (suc (suc (suc (suc zero)))) h false = (refl, refl, omega arith, refl, refl)
attributes_lem (suc (suc (suc (suc (suc zero))))) h true = (refl, refl, omega arith, refl, refl)
attributes_lem (suc (suc (suc (suc (suc zero))))) h false = (refl, refl, omega arith, refl, refl)
attributes_lem (suc (suc (suc (suc (suc (suc zero)))))) h true =
    (refl, refl, omega arith, refl, refl)
attributes_lem (suc (suc (suc (suc (suc (suc zero)))))) h false =
    (refl, refl, omega arith, refl, refl)
attributes_lem (suc (suc (suc (suc (suc (suc (suc zero))))))) h true =
    (refl, refl, omega arith, refl, refl)
attributes_lem (suc (suc (suc (suc (suc (suc (suc zero))))))) h false =
    (refl, refl, omega arith, refl, refl)
attributes_lem (suc (suc (suc (suc (suc (suc (suc (suc n)))))))) h t = absurd (omega arith)
