-- ===== src/Bourse/Purse/Fraud.antt =====
-- The penalty of a dispute falls on the payer, whoever published the closure.
use vanargand.Common.{ℕ, ◌≤◌, ◌<◌, ◌≡◌, true, false, none, some, ok, arith}
use vanargand.Types.Tx.{Hash}
use vanargand.Types.Window.{ContestationWindow, has_elapsed}
use vanargand.Bourse.Payword.{PayWordToken, verify_against_root}
use vanargand.Bourse.Purse.{Purse, settle, check_claim, begin_unilateral, dispute, is_party}

module _ (link : Hash → Hash) where
  -- On any channel that is not closing, a payee that holds one token of the payer, for as little as
  -- one tranche and within the capacity, takes the whole deposit with no act of the payer: it
  -- closes unilaterally with a claim of zero, disputes its own closure with the token, and once the
  -- window has elapsed the settlement pays the payer nothing.
  pub payee_takes_deposit :
      (p : Purse) (token : PayWordToken) (window : ContestationWindow) (height : ℕ)
      → p.closing ≡ none
      → 0 < token.index
      → token.index ≤ p.capacity
      → verify_against_root link p.payword_root token ≡ ok tt
      → has_elapsed window height ≡ true
      → (closed : Purse) × (disputed : Purse) × (begin_unilateral link p p.payee 0 none window
          ≡ ok closed)
        × (dispute link closed token.index token ≡ ok disputed)
        × (settle disputed height ≡ ok (record { to_payer = 0; to_payee = p.deposit }))
  unfolding begin_unilateral dispute settle check_claim is_party
  payee_takes_deposit p token window height idle pos within good elapsed = (
    record p {
      closing =
          some (record {
            claimant = p.payee;
            claimed_tranches = 0;
            window = window;
            disputed = false;
          });
    },
    record p {
      closing = some (record {
        claimant = p.payee;
        claimed_tranches = token.index;
        window = window;
        disputed = true;
      });
    },
    ground arith,
    ground arith,
    ground arith,
  )
