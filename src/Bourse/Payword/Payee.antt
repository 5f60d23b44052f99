-- ===== src/Bourse/Payword/Payee.antt =====
-- The two ends of a channel stay in step: what the payer spends, the payee accepts, and what the
-- payee has accepted it can prove.
use vanargand.Common.{
  ℕ, ◌-◌, ◌≤◌, ◌<◌, ◌≡◌, refl, ap, ◌∙◌, some, arith, Result-cases, inl, inr, ◌⊎◌, is_ok, false,
}
use vanargand.Types.Amount.{Amount}
use vanargand.Types.Tx.{Hash}
use vanargand.Crypto.Chain.{advance, would_advance, iterate, root}
use vanargand.Crypto.Chain.Walk.{advance_sound}
use vanargand.Crypto.Chain.Links.{iterate_add}
use vanargand.Bourse.Payword.{PayWordToken, PayWordPayee, max_tranches, value_of, accept, new_payee}

module _ (link : Hash → Hash) where
  -- The payee's cursor stands at the tranche that it has accepted: the link that it is committed to
  -- hashes forward to the root in that many steps.
  pub record IsTracking (p : PayWordPayee) : Type 0 where
    pub on_chain : iterate link p.accepted p.cursor.committed ≡ p.payee_root
    pub within : p.accepted ≤ p.capacity
    pub bounded : p.capacity ≤ max_tranches
    pub walks : p.cursor.max_steps ≡ p.capacity

  -- A new payee is in step with the root that it was given.
  pub new_payee-IsTracking :
      (root : Hash) (cap : ℕ) (tranche_value : Amount)
      → IsTracking (new_payee root cap tranche_value)
  unfolding new_payee iterate
  new_payee-IsTracking root cap tranche_value = record {
    on_chain = refl;
    within = omega arith;
    bounded = omega arith;
    walks = refl;
  }

  -- What `accept` does to the payee: it is unchanged, or it has moved to the token.
  abbrev Moves : PayWordPayee → PayWordToken → PayWordPayee → Type 0
  Moves p token p' =
      (p.accepted < token.index)
      × (token.index ≤ p.capacity)
      × (p'.accepted ≡ token.index)
      × (p'.best ≡ some token)
      × (p'.cursor.committed ≡ token.link)
      × (iterate link (token.index - p.accepted) token.link ≡ p.cursor.committed)
      × (p'.payee_root ≡ p.payee_root)
      × (p'.capacity ≡ p.capacity)
      × (p'.tranche_value ≡ p.tranche_value)
      × (p'.cursor.max_steps ≡ p.cursor.max_steps)

  accept_cases :
      (p : PayWordPayee) (token : PayWordToken)
      → (Moves p token (accept link p token).1
          × ((accept link p token).0 ≡ value_of (token.index - p.accepted) p.tranche_value))
        ⊎ (((accept link p token).1 ≡ p) × (is_ok (accept link p token).0 ≡ false))
  unfolding accept would_advance
  accept_cases p token = elim (Result-cases (advance link p.cursor token.link)) [
    | inr (e, failed) ↦ inr (ground (arith, failed))
    | inl ((steps, cursor'), moved) ↦
        let (pos, small, here, before, at, same) =
          advance_sound link p.cursor token.link steps cursor' moved in
        ground (arith, moved, here, pos, small, at, same)
  ]

  -- Whatever a hostile payer sends, `accept` keeps the payee in step with the root; it never lowers
  -- what is accepted, and unless it raises what is accepted it leaves the payee as it was.
  pub accept-IsTracking :
      (p : PayWordPayee) (token : PayWordToken)
      → IsTracking p
      → IsTracking (accept link p token).1
        × (p.accepted ≤ (accept link p token).1.accepted)
        × ((accept link p token).1.accepted ≡ p.accepted → (accept link p token).1 ≡ p)
  accept-IsTracking p token t = elim (accept_cases p token) [
    | inr (same, _) ↦ rw same (t, omega arith, λ _. refl)
    | inl ((lt, fits, acc, _, at, here, root_same, cap, _, steps), _) ↦ (
      record {
        on_chain =
            rw (acc, at, root_same)
              (ap (λ n. iterate link n token.link) (omega arith)
                ∙ iterate_add link p.accepted (token.index - p.accepted) token.link
                ∙ ap (iterate link p.accepted) here
                ∙ t.on_chain);
        within = omega arith;
        bounded = omega (arith, t.bounded);
        walks = omega (arith, t.walks);
      },
      omega arith,
      λ e. absurd (omega arith),
    )
  ]
