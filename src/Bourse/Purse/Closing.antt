-- ===== src/Bourse/Purse/Closing.antt =====
-- How a channel closes: what a claim and a dispute must prove, and what a settlement pays.
use vanargand.Common.{
  ℕ, ◌≤◌, ◌<◌, ◌≡◌, true, false, Option, none, some, ok, arith, Option-cases, inl, inr, Bool-cases,
  ◌⊎◌, ◌==◌,
}
use vanargand.Types.Amount.{IsU64}
use vanargand.Types.Tx.{Hash, AccountId}
use vanargand.Types.Window.{ContestationWindow, has_elapsed}
use vanargand.Crypto.Chain.{iterate}
use vanargand.Bourse.Payword.{PayWordToken, verify_against_root}
use vanargand.Bourse.Payword.Verify.{verify_against_root_sound}
use vanargand.Bourse.Purse.{
  Purse, PendingClosure, Settlement, settle_cooperative, settle, check_claim, begin_unilateral,
  dispute, is_party, settlement_total,
}

-- No settlement creates or destroys value: on a channel with a 64-bit deposit, an agreed one and
-- one after a window both pay out exactly the deposit.
pub settlement_conserves :
    (p : Purse) (to_payer to_payee height : ℕ) (s : Settlement)
    → IsU64 p.deposit
    → ((settle_cooperative p to_payer to_payee ≡ ok s) ⊎ (settle p height ≡ ok s))
    → settlement_total s ≡ some p.deposit
unfolding settle_cooperative settle settlement_total
settlement_conserves p to_payer to_payee height s fits (inl agreed) = ground arith
settlement_conserves p to_payer to_payee height s fits (inr settled) = ground arith

-- Before its window has elapsed in finalised height no closure settles, and a channel that nobody
-- closes never does.
pub settle_waits :
    (p : Purse) (height : ℕ) (s : Settlement)
    → settle p height ≡ ok s
    → (pending : PendingClosure) × (p.closing ≡ some pending)
      × (has_elapsed pending.window height ≡ true)
unfolding settle
settle_waits p height s e = elim (Option-cases p.closing) [
  | inl idle ↦ absurd (ground (arith, idle))
  | inr (pending, closing) ↦ (pending, closing, ground (arith, closing))
]

module _ (link : Hash → Hash) where
  -- A claim that is admitted is zero, or the payer's chain really reached it: a link is known that
  -- hashes forward to the channel's root in that many steps.
  check_claim_proves :
      (p : Purse) (tranches : ℕ) (token : Option PayWordToken)
      → check_claim link p tranches token ≡ ok tt
      → (tranches ≡ 0) ⊎ ((l : Hash) × (iterate link tranches l ≡ p.payword_root))
  unfolding check_claim
  check_claim_proves p tranches none h = inl (ground arith)
  check_claim_proves p tranches (some t) h = elim (Bool-cases (tranches == 0)) [
    | inl zero_claim ↦ inl (ground arith)
    | inr claim ↦
        let same : t.index ≡ tranches = ground arith in
        let good : verify_against_root link p.payword_root t ≡ ok tt = ground arith in
        let (_, _, here, _) = verify_against_root_sound link p.payword_root t good in
        inr (t.link, rw (← same) here)
  ]

  -- A unilateral closure is begun only by a party, on a channel that is not closing, within its
  -- capacity and with a proven claim; it only records the claim and its window, undisputed.
  pub begin_unilateral-ok :
      (p : Purse) (claimant : AccountId) (claimed : ℕ) (token : Option PayWordToken)
      (window : ContestationWindow) (p' : Purse)
      → begin_unilateral link p claimant claimed token window ≡ ok p'
      → ((claimant ≡ p.payer) ⊎ (claimant ≡ p.payee))
        × (p.closing ≡ none)
        × (claimed ≤ p.capacity)
        × ((claimed ≡ 0) ⊎ ((l : Hash) × (iterate link claimed l ≡ p.payword_root)))
        × (p' ≡ record p {
          closing = some (record {
            claimant = claimant;
            claimed_tranches = claimed;
            window = window;
            disputed = false;
          });
        })
  unfolding begin_unilateral is_party
  begin_unilateral-ok p claimant claimed token window p' h = (
    ground arith,
    ground arith,
    ground arith,
    check_claim_proves p claimed token (ground arith),
    ground arith,
  )

  positive_claim : {P : Type 0} (low n : ℕ) → low < n → ((n ≡ 0) ⊎ P) → P
  positive_claim low n pos (inl z) = absurd (omega arith)
  positive_claim low n pos (inr h) = h

  -- A dispute succeeds only against a pending closure and with a strictly larger proven claim
  -- within the capacity; it marks the closure as disputed and leaves its window and all else alone.
  pub dispute-ok :
      (p : Purse) (disputed : ℕ) (token : PayWordToken) (p' : Purse)
      → dispute link p disputed token ≡ ok p'
      → (pending : PendingClosure) × (p.closing ≡ some pending)
        × (pending.claimed_tranches < disputed)
        × (disputed ≤ p.capacity)
        × ((l : Hash) × (iterate link disputed l ≡ p.payword_root))
        × (p' ≡ record p {
          closing = some (record pending { claimed_tranches = disputed; disputed = true });
        })
  unfolding dispute
  dispute-ok p disputed token p' h = elim (Option-cases p.closing) [
    | inl idle ↦ absurd (ground (arith, idle))
    | inr (pending, closing) ↦
        let proven : (disputed ≡ 0) ⊎ ((l : Hash) × (iterate link disputed l ≡ p.payword_root)) =
          check_claim_proves p disputed (some token) (ground (arith, closing)) in
        (
          pending,
          closing,
          ground (arith, closing),
          ground (arith, closing),
          positive_claim pending.claimed_tranches disputed (ground (arith, closing)) proven,
          ground (arith, closing),
        )
  ]
