-- ===== src/Backtest/Sizing/Bounds.antt =====
-- Within which limits a position is sized (backtest-engine.ts).
use hashi_bot.Base.{
  ◌≡◌, refl, ◌⊎◌, inl, inr, Bool, true, false, ◌&&◌, Option, none, some, or_else, arith,
}
use hashi_bot.Base.Number.{Number, IsIeee, IsNumber, ◌≼◌, int, truthy, ◌-◌, ◌*◌, ◌/◌}
use hashi_bot.Backtest.Sizing.{
  SizingInputs, PositionSizing, clamp, size_modifier_of, applied_risk_pct, within_notional,
  resolve_position_sizing,
}

module _ {N : Type 0} ⦃num : Number N⦄ where
  open num use {lit, abs, lt, le, is_finite}

  -- The notional cap that counts: it and the entry are above 0.
  abbrev pub is_capped : Option N → N → Bool
  is_capped none entry = false
  is_capped (some max_notional) entry =
      truthy max_notional && lt (int 0) max_notional && lt (int 0) entry

  abbrev pub cap_quantity : Option N → N → N
  cap_quantity none entry = int 0
  cap_quantity (some max_notional) entry = max_notional / entry

  abbrev pub risk_cap : SizingInputs N → N
  risk_cap inputs = or_else inputs.max_risk_pct_cap (lit 25 3)

  -- The quantity that a share of the equity pays for at the distance to the stop.
  abbrev pub affordable : SizingInputs N → (risk modifier : N) → N
  affordable inputs risk modifier =
      inputs.equity * risk * modifier / abs (inputs.entry - inputs.stop)

  -- Between 0 and the cap, or 0 as a number under a cap that is at most 0.
  abbrev pub IsAppliedRisk : SizingInputs N → N → Type 0
  IsAppliedRisk inputs risk =
      (int 0 ≼ risk) × ((risk ≼ risk_cap inputs) ⊎ ((risk_cap inputs ≼ int 0) × (risk ≼ int 0)))

  abbrev pub Sized : SizingInputs N → PositionSizing N → Type 0
  Sized inputs r =
      let capped = is_capped inputs.max_position_notional inputs.entry in
      (lt (int 0) r.quantity ≡ true)
      × (is_finite r.quantity ≡ true)
      × (lt (int 0) (abs (inputs.entry - inputs.stop)) ≡ true)
      × (is_finite (abs (inputs.entry - inputs.stop)) ≡ true)
      × (r.risk_amount ≡ r.quantity * abs (inputs.entry - inputs.stop))
      × ((risk : N) × IsAppliedRisk inputs risk
          × (r.quantity ≼ affordable inputs risk r.size_modifier)
          × ((capped ≡ true) ⊎ (r.quantity ≡ affordable inputs risk r.size_modifier)))
      × ((capped ≡ false) ⊎ (r.quantity ≼ cap_quantity inputs.max_position_notional inputs.entry))

module _ {N : Type 0} ⦃num : Number N⦄ ⦃ieee : IsIeee N⦄ where
  open num use {lit, abs, min, max, lt, le, is_finite}

  within_notional-le :
      (cap : Option N) (entry quantity : N)
      → is_finite (within_notional cap entry quantity) ≡ true
      → is_finite quantity ≡ true
      → let cut = within_notional cap entry quantity in
        (cut ≼ quantity)
        × ((is_capped cap entry ≡ true) ⊎ (cut ≡ quantity))
        × ((is_capped cap entry ≡ false) ⊎ (cut ≼ cap_quantity cap entry))
  within_notional-le none entry quantity f g = (ieee.finite_number quantity g, inr refl, inl refl)
  within_notional-le (some m) entry quantity f g = ground (
    arith,
    ieee.finite_number (min quantity (m / entry)),
    ieee.finite_number quantity g,
    ieee.numbers_of_min quantity (m / entry),
    ieee.min_le quantity (m / entry),
  )

  clamp-IsAppliedRisk :
      (value cap : N)
      → IsNumber (clamp value (int 0) cap)
      → let risk = clamp value (int 0) cap in
        (int 0 ≼ risk) × ((risk ≼ cap) ⊎ ((cap ≼ int 0) × (risk ≼ int 0)))
  clamp-IsAppliedRisk value cap n =
      let zero = (ieee.numbers_of_le (int 0) (int 0) (ieee.zero-le-lit 0 0)).0 in
      let inner = (ieee.numbers_of_max _ _ n).1 in
      let (cap_number, value_number) = ieee.numbers_of_min cap value inner in
      let low = (ieee.le_max (int 0) (min cap value) zero inner).0 in
      let below = (ieee.min_le cap value cap_number value_number).0 in
      (
        low,
        elim (ieee.le_total (int 0) cap zero cap_number) [
          | inl up ↦ inl (ieee.max-le _ _ _ up below)
          | inr down ↦ inr (down, ieee.max-le _ _ _ zero (ieee.le_trans _ _ _ below down))
        ],
      )

  applied_risk_pct-IsAppliedRisk :
      (inputs : SizingInputs N)
      → IsNumber (applied_risk_pct inputs)
      → IsAppliedRisk inputs (applied_risk_pct inputs)
  applied_risk_pct-IsAppliedRisk inputs n = clamp-IsAppliedRisk _ (risk_cap inputs) n

  positive : (x : N) → is_finite x ≡ true → le x (int 0) ≡ false → lt (int 0) x ≡ true
  positive x f p = ground (
    arith,
    ieee.finite_number x f,
    ieee.lt-eq-not-le (int 0) x,
    ieee.numbers_of_le (int 0) (int 0) (ieee.zero-le-lit 0 0),
  )

  applied_of_desired :
      (inputs : SizingInputs N)
      → is_finite (affordable inputs (applied_risk_pct inputs) (size_modifier_of inputs)) ≡ true
      → IsAppliedRisk inputs (applied_risk_pct inputs)
  applied_of_desired inputs f =
      let amount = (ieee.numbers_of_over _ _ (ieee.finite_number _ f)).0 in
      let risked = (ieee.numbers_of_times _ _ amount).0 in
      applied_risk_pct-IsAppliedRisk inputs (ieee.numbers_of_times _ _ risked).1

  -- Under the laws of IEEE 754 arithmetic, a size that is returned is finite and above 0, and its risk is
  -- that of the distance to the stop, which is above 0 and finite too. For some share of the equity,
  -- which lies between 0 and the cap on the risk, or is 0 if the cap is not above 0, the quantity is at
  -- most equity * share * modifier / distance, and exactly that if no notional cap counts. If a cap on
  -- the notional counts, as it and the entry are above 0, the quantity is at most cap / entry.
  pub resolve_position_sizing-Sized :
      (inputs : SizingInputs N) (r : PositionSizing N)
      → resolve_position_sizing inputs ≡ some r
      → Sized inputs r
  unfolding resolve_position_sizing
  resolve_position_sizing-Sized inputs r e =
      let distance = abs (inputs.entry - inputs.stop) in
      let desired = affordable inputs (applied_risk_pct inputs) (size_modifier_of inputs) in
      let quantity = within_notional inputs.max_position_notional inputs.entry desired in
      let finite : is_finite desired ≡ true = ground (arith, e) in
      let cut : is_finite quantity ≡ true = ground (arith, e) in
      let quantity_of : r.quantity ≡ quantity = ground (arith, e) in
      let modifier_of : r.size_modifier ≡ size_modifier_of inputs = ground (arith, e) in
      let amount_of : r.risk_amount ≡ quantity * distance = ground (arith, e) in
      let bounds =
        within_notional-le inputs.max_position_notional inputs.entry desired cut finite in
      let above = positive quantity cut (ground (arith, e)) in
      let apart : is_finite distance ≡ true = ground (arith, e) in
      let away = positive distance apart (ground (arith, e)) in
      rw (quantity_of, modifier_of, amount_of)
        (
          above,
          cut,
          away,
          apart,
          refl,
          (applied_risk_pct inputs, applied_of_desired inputs finite, bounds.0, bounds.1),
          bounds.2,
        )
