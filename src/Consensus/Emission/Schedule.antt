-- ===== src/Consensus/Emission/Schedule.antt =====
-- The closed form of the ceiling is the sum over the epochs, and what the check of a counter says.
use native.Mathlib.Nat.{mul-add, mul-le-mul_left}
use vanargand.Common.{
  ℕ, zero, suc, ◌+◌, ◌*◌, ◌/◌, ◌%◌, ◌≤◌, ◌<◌, ◌≡◌, ◌↔◌, refl, sym, ap, ◌∙◌, min, arith, ok,
  lt_cases, inl, inr,
}
use vanargand.Types.Amount.{Amount, max_supply}
use vanargand.Consensus.Emission.{
  epochs_per_period, first_period_emission, period_of, shift_right, period_emission,
  emission_for_epoch, complete_periods, permitted_through, check_counter,
}

-- The reference: what the epochs up to this one may emit, one by one.
unfoldable pub emitted_through : ℕ → Amount
emitted_through zero = emission_for_epoch 0
emitted_through (suc epoch) = emitted_through epoch + emission_for_epoch (suc epoch)

shift_right-bound : (n : ℕ) → shift_right first_period_emission n ≤ first_period_emission
unfolding shift_right
shift_right-bound zero = omega arith
shift_right-bound (suc n) = omega (arith, shift_right-bound n)

-- The complete periods never emit more than the halvings leave.
complete_periods-bound :
    (n : ℕ)
    → complete_periods n + 2 * shift_right first_period_emission n ≤ 2 * first_period_emission
unfolding complete_periods shift_right period_emission
complete_periods-bound zero = omega arith
complete_periods-bound (suc n) = ground (arith, complete_periods-bound n, shift_right-bound n)

complete_periods-suc :
    (n : ℕ)
    → complete_periods (suc n)
      ≡ complete_periods n + period_emission n / epochs_per_period * epochs_per_period
unfolding complete_periods period_emission
complete_periods-suc n = ground (arith, complete_periods-bound n, shift_right-bound n)

-- The ceiling before it is capped.
unfoldable closed_form : ℕ → Amount
closed_form epoch =
    complete_periods (min (period_of epoch) 64)
    + period_emission (period_of epoch) / epochs_per_period * (epoch % epochs_per_period + 1)

min-small : (p : ℕ) → p < 64 → (min (suc p) 64 ≡ suc p) × (min p 64 ≡ p)
min-small p h = omega arith

min-large : (p : ℕ) → 64 ≤ p → min (suc p) 64 ≡ min p 64
min-large p h = omega arith

complete_periods-next :
    (p : ℕ)
    → complete_periods (min (suc p) 64)
      ≡ complete_periods (min p 64) + period_emission p / epochs_per_period * epochs_per_period
unfolding period_emission
complete_periods-next p = elim (lt_cases p 64) [
  | inl t ↦
      let (next, here) = min-small p (omega arith) in
      ap complete_periods next
      ∙ complete_periods-suc p
      ∙ ap (λ n. complete_periods n + period_emission p / epochs_per_period * epochs_per_period)
          (sym here)
  | inr f ↦ ground (arith, ap complete_periods (min-large p (omega arith)))
]

closed_form-suc : (e : ℕ) → closed_form (suc e) ≡ closed_form e + emission_for_epoch (suc e)
unfolding closed_form emission_for_epoch period_of
closed_form-suc e = elim (lt_cases (e % epochs_per_period + 1) epochs_per_period) [
  | inl t ↦
      let same_period : suc e / epochs_per_period ≡ e / epochs_per_period = omega arith in
      let one_more : suc e % epochs_per_period ≡ e % epochs_per_period + 1 = omega arith in
      rw (same_period, one_more)
        (omega (
          arith,
          mul-add (period_emission (e / epochs_per_period) / epochs_per_period)
              (e % epochs_per_period + 1) 1,
        ))
  | inr f ↦
      let next_period : suc e / epochs_per_period ≡ suc (e / epochs_per_period) = omega arith in
      let first : suc e % epochs_per_period ≡ 0 = omega arith in
      let full : e % epochs_per_period + 1 ≡ epochs_per_period = omega arith in
      rw (next_period, first, full, complete_periods-next) (omega arith)
]

part-bound :
    (e : ℕ)
    → period_emission (period_of e) / epochs_per_period * (e % epochs_per_period + 1)
      ≤ first_period_emission
unfolding period_emission
part-bound e =
    let elapsed : e % epochs_per_period + 1 ≤ epochs_per_period = omega arith in
    ground (
      arith,
      mul-le-mul_left (period_emission (period_of e) / epochs_per_period) elapsed,
      shift_right-bound (period_of e),
    )

permitted_through-closed_form : (e : ℕ) → permitted_through e ≡ min (closed_form e) max_supply
unfolding closed_form permitted_through
permitted_through-closed_form e =
    ground (arith, part-bound e, complete_periods-bound (min (period_of e) 64))

closed_form-emitted : (e : ℕ) → closed_form e ≡ emitted_through e
unfolding emitted_through closed_form emission_for_epoch complete_periods period_emission period_of
    shift_right
closed_form-emitted zero = ground arith
closed_form-emitted (suc e) =
    closed_form-suc e ∙ ap (λ n. n + emission_for_epoch (suc e)) (closed_form-emitted e)

-- The ceiling through an epoch, which the code computes from the whole periods and the epochs of
-- the last one, is the sum of what each epoch up to it emits, epoch by epoch, or the cap of the
-- supply if that is less.
pub permitted_through-emitted : (e : ℕ) → permitted_through e ≡ min (emitted_through e) max_supply
permitted_through-emitted e = rw (permitted_through-closed_form, closed_form-emitted) refl

-- A header's counter passes the check exactly if it is at least its parent's and at most the
-- ceiling through the epoch.
pub check_counter-ok :
    (parent claimed : Amount) (e : ℕ)
    → (check_counter parent claimed e ≡ ok tt)
      ↔ ((parent ≤ claimed) × (claimed ≤ min (emitted_through e) max_supply))
unfolding check_counter
check_counter-ok parent claimed e = ground (arith, permitted_through-emitted e)
