-- ===== src/Payment/Fee.antt =====
-- PaymentMethod.CalculateFee of internal/models/payment.go, and computeTotal. The machine's
-- floating point is a parameter: a type with the operations that the code calls.
use gtd_api.Prelude.{◌≡◌, ◌⊎◌, Bool, true, false, ◌&&◌, arith, if◌then◌else◌}
use gtd_api.Prelude.Int.{ℤ, pos, ltb_ℤ, ◌≤ℤ◌, add64}
use gtd_api.Payment.Model.{
  PaymentMethod, FeeType, flat, percent, other_fee, FeePaidBy, merchant, customer,
}

-- float64: conversion from and to int64, product, quotient and `<`.
pub record Float64 : Type 1 where
  pub Real : Type 0
  pub of_int : ℤ → Real
  pub to_int : Real → ℤ
  pub product : Real → Real → Real
  pub quotient : Real → Real → Real
  pub less : Real → Real → Bool

-- if m.FeeMin > 0 && fee < int64(m.FeeMin) { fee = int64(m.FeeMin) }
unfoldable pub raise_to : (low fee : ℤ) → ℤ
raise_to low fee = if ltb_ℤ (pos 0) low && ltb_ℤ fee low then low else fee

-- if m.FeeMax > 0 && fee > int64(m.FeeMax) { fee = int64(m.FeeMax) }
unfoldable pub cut_to : (high fee : ℤ) → ℤ
cut_to high fee = if ltb_ℤ (pos 0) high && ltb_ℤ high fee then high else fee

-- The customer's total includes the fee.
unfoldable pub compute_total : (subtotal fee : ℤ) → FeePaidBy → ℤ
compute_total subtotal fee customer = add64 subtotal fee
compute_total subtotal fee merchant = subtotal

module _ (F : Float64) where
  open F use {Real, of_int, to_int, product, quotient, less}

  -- float64(amount) * m.FeePercent / 100.0
  unfoldable pub raw_fee : PaymentMethod Real → ℤ → Real
  raw_fee m amount = quotient (product (of_int amount) m.fee_percent) (of_int (pos 100))

  -- Round up, so that the fee is never below the raw one.
  unfoldable pub round_up : Real → ℤ
  round_up raw = if less (of_int (to_int raw)) raw then add64 (to_int raw) (pos 1) else to_int raw

  unfoldable pub base_fee : FeeType → PaymentMethod Real → ℤ → ℤ
  base_fee flat m amount = m.fee_flat
  base_fee percent m amount = round_up (raw_fee m amount)
  base_fee other_fee m amount = pos 0

  unfoldable pub calculate_fee : PaymentMethod Real → ℤ → ℤ
  unfolding cut_to raise_to base_fee round_up raw_fee
  calculate_fee m amount = cut_to m.fee_max (raise_to m.fee_min (base_fee m.fee_type m amount))

  -- Whatever its type, a method's fee is at most the positive maximum, and at least the positive
  -- minimum unless a positive maximum lies below that.
  pub calculate_fee_bounds :
      (m : PaymentMethod Real) (amount : ℤ)
      → ((ltb_ℤ (pos 0) m.fee_max ≡ false) ⊎ (calculate_fee m amount ≤ℤ m.fee_max))
        × ((ltb_ℤ (pos 0) m.fee_min ≡ false)
            ⊎ ((ltb_ℤ (pos 0) m.fee_max && ltb_ℤ m.fee_max m.fee_min ≡ true)
                ⊎ (m.fee_min ≤ℤ calculate_fee m amount)))
  unfolding calculate_fee cut_to raise_to
  calculate_fee_bounds m amount =
      let fee = base_fee m.fee_type m amount in (ground arith, ground arith)

  -- What the conversion to int64 does to a value in its range: it cuts the fraction off, so the
  -- next integer is not below the value.
  abbrev pub IsCutOff : Real → Type 0
  IsCutOff x = less (of_int (add64 (to_int x) (pos 1))) x ≡ false

  -- Where the conversion only cuts the fraction off, a percentage fee that neither bound touches is
  -- not below the exact percentage, and it is at most one above the exact percentage's integer
  -- part.
  percent_fee_rounds_up :
      (m : PaymentMethod Real) (amount : ℤ)
      → m.fee_type ≡ percent
      → ltb_ℤ (pos 0) m.fee_min ≡ false
      → ltb_ℤ (pos 0) m.fee_max ≡ false
      → IsCutOff (raw_fee m amount)
      → (less (of_int (calculate_fee m amount)) (raw_fee m amount) ≡ false)
        × ((calculate_fee m amount ≡ to_int (raw_fee m amount))
            ⊎ (calculate_fee m amount ≡ add64 (to_int (raw_fee m amount)) (pos 1)))
  unfolding calculate_fee cut_to raise_to base_fee round_up
  percent_fee_rounds_up m amount t low high c = rw (t, low, high) (ground arith)
