-- ===== src/Tests/Bourse.antt =====
-- A channel of four tranches of 25 on the chain 5, 4, 3, 2, 1 of the step `n + 1`.
use vanargand.Common.{
  ℕ, zero, suc, ◌+◌, ◌-◌, ◌*◌, ◌≤◌, ◌<◌, ◌≡◌, ◌≢◌, refl, true, false, none, some, ok, arith, [],
  ◌∷◌, inl, ◌⊎◌,
}
use vanargand.Common.Lists.{get_elem?}
use vanargand.Common.Map.{lookup}
use vanargand.Common.Map.Keys.{nat_key}
use vanargand.Types.Tx.{Hash}
use vanargand.Types.Window.{ContestationWindow, has_elapsed}
use vanargand.Crypto.Chain.{ChainCursor, new_cursor, iterate, build, walk, moved, advance}
use vanargand.Crypto.Chain.Walk.{advance_sound}
use vanargand.Bourse.Payword.{
  PayWordToken, PayWordPayer, PayWordPayee, max_tranches, spend, accept, new_payee,
  verify_against_root,
}
use vanargand.Bourse.Payword.Verify.{verify_against_root_sound, verify_against_root_complete}
use vanargand.Bourse.Payword.Payee.{IsTracking, new_payee-IsTracking, accept-IsTracking}
use vanargand.Bourse.Payword.Channel.{Distinct, Synced, spend-accept}
use vanargand.Bourse.Purse.{
  Purse, PendingClosure, settle, settle_cooperative, settlement_total, begin_unilateral, dispute,
  is_party, check_claim,
}
use vanargand.Bourse.Purse.Closing.{settlement_conserves, begin_unilateral-ok, dispute-ok}
use vanargand.Bourse.Purse.Fraud.{payee_takes_deposit}
use vanargand.Bourse.Watchtower.{Watchtower, inspect, publish}
use vanargand.Bourse.Watchtower.Laws.{inspect-dispute}
use vanargand.Tests.Ledger.{next_link}

abbrev token : PayWordToken
token = record { index = 1; link = 4 }

abbrev window : ContestationWindow
window = record { opened_at_finalized = 10; duration = 5 }

abbrev open_channel : Purse
open_channel = record {
  payer = 1;
  payee = 2;
  asset = none;
  deposit = 100;
  payword_root = 5;
  tranche_value = 25;
  capacity = 4;
  expiry_finalized_height = 1000;
  closing = none;
}

abbrev claim : PendingClosure
claim = record { claimant = 1; claimed_tranches = 0; window = window; disputed = false }

abbrev closing_channel : Purse
closing_channel = record open_channel { closing = some claim }

abbrev tower : Watchtower
tower = record { owner = none; best = (9, token) ∷ [] }

abbrev payer : PayWordPayer
payer = record { chain = record { links = 5 ∷ 4 ∷ 3 ∷ 2 ∷ 1 ∷ [] }; spent = 0; tranche_value = 25 }

settlement_conserves_example :
    settlement_total (record { to_payer = 60; to_payee = 40 }) ≡ some open_channel.deposit
unfolding settle_cooperative
settlement_conserves_example =
    settlement_conserves open_channel 60 40 0 (record { to_payer = 60; to_payee = 40 })
      (omega arith) (inl refl)

begin_unilateral-ok_example :
    ((claim.claimant ≡ open_channel.payer) ⊎ (claim.claimant ≡ open_channel.payee))
    × (open_channel.closing ≡ none)
    × (claim.claimed_tranches ≤ open_channel.capacity)
    × ((claim.claimed_tranches ≡ 0)
        ⊎ ((l : Hash) × (iterate next_link claim.claimed_tranches l ≡ open_channel.payword_root)))
    × (closing_channel ≡ record open_channel {
      closing = some (record {
        claimant = claim.claimant;
        claimed_tranches = claim.claimed_tranches;
        window = window;
        disputed = false;
      });
    })
unfolding begin_unilateral check_claim is_party
begin_unilateral-ok_example =
    begin_unilateral-ok next_link open_channel 1 0 none window closing_channel refl

verified : verify_against_root next_link 5 token ≡ ok tt
unfolding iterate
verified =
    verify_against_root_complete next_link 5 token (omega arith) (omega arith) refl
      λ j pos small e. ground arith

verify_against_root_sound_example :
    (0 < token.index)
    × (token.index ≤ max_tranches)
    × (iterate next_link token.index token.link ≡ 5)
    × ((j : ℕ) → 0 < j → j < token.index → iterate next_link j token.link ≢ 5)
verify_against_root_sound_example = verify_against_root_sound next_link 5 token verified

abbrev claimed_channel : Purse
claimed_channel = record open_channel { closing = some (record claim { claimed_tranches = 1 }) }

abbrev disputed_channel : Purse
disputed_channel = record open_channel {
  closing = some (record claim { claimed_tranches = 1; disputed = true });
}

disputes : dispute next_link closing_channel 1 token ≡ ok disputed_channel
unfolding dispute check_claim
disputes = ground (arith, verified)

dispute-ok_example :
    (pending : PendingClosure) × (closing_channel.closing ≡ some pending)
    × (pending.claimed_tranches < 1)
    × (1 ≤ closing_channel.capacity)
    × ((l : Hash) × (iterate next_link 1 l ≡ closing_channel.payword_root))
    × (disputed_channel ≡ record closing_channel {
      closing = some (record pending { claimed_tranches = 1; disputed = true });
    })
dispute-ok_example = dispute-ok next_link closing_channel 1 token disputed_channel disputes

payee_takes_deposit_example :
    (closed : Purse) × (disputed : Purse) × (begin_unilateral next_link open_channel
        open_channel.payee 0 none window
      ≡ ok closed)
    × (dispute next_link closed token.index token ≡ ok disputed)
    × (settle disputed 20 ≡ ok (record { to_payer = 0; to_payee = open_channel.deposit }))
unfolding has_elapsed
payee_takes_deposit_example =
    payee_takes_deposit next_link open_channel token window 20 refl (omega arith) (omega arith)
      verified refl

inspect-dispute_example :
    (disputed : Purse) × (inspect tower 9 closing_channel ≡ publish token.index token)
    × (dispute next_link closing_channel token.index token ≡ ok disputed)
    × (settle disputed 20 ≡ ok (record { to_payer = 0; to_payee = closing_channel.deposit }))
unfolding has_elapsed lookup
inspect-dispute_example =
    inspect-dispute next_link tower 9 closing_channel claim token 20 refl refl (omega arith)
      (omega arith) verified refl

accept-IsTracking_example :
    IsTracking next_link (accept next_link (new_payee 5 4 25) token).1
    × ((new_payee 5 4 25).accepted ≤ (accept next_link (new_payee 5 4 25) token).1.accepted)
    × ((accept next_link (new_payee 5 4 25) token).1.accepted ≡ (new_payee 5 4 25).accepted
        → (accept next_link (new_payee 5 4 25) token).1 ≡ (new_payee 5 4 25))
accept-IsTracking_example =
    accept-IsTracking next_link (new_payee 5 4 25) token (new_payee-IsTracking next_link 5 4 25)

nth_link : (i : ℕ) → i ≤ 4 → get_elem? (build next_link 4 1) i ≡ some (5 - i)
unfolding build
nth_link zero h = refl
nth_link (suc zero) h = refl
nth_link (suc (suc zero)) h = refl
nth_link (suc (suc (suc zero))) h = refl
nth_link (suc (suc (suc (suc zero)))) h = refl
nth_link (suc (suc (suc (suc (suc i))))) h = ground arith

distinct : Distinct next_link 1 4
distinct i j less last = ground (arith, nth_link i (omega arith), nth_link j last)

synced : Synced next_link 1 4 payer (new_payee 5 4 25)
unfolding build new_payee
synced = record {
  holds = refl;
  short = omega arith;
  in_step = refl;
  cap = refl;
  walks = refl;
  price = refl;
  last = refl;
}

spend-accept_example :
    (spent_token : PayWordToken) × (payer' : PayWordPayer) × (payee' : PayWordPayee) × (spend payer
        2
      ≡ ok (spent_token, payer'))
    × (accept next_link (new_payee 5 4 25) spent_token ≡ (ok (payer.tranche_value * 2), payee'))
    × (payer'.spent ≡ payer.spent + 2)
    × Synced next_link 1 4 payer' payee'
spend-accept_example =
    spend-accept next_link 1 4 payer (new_payee 5 4 25) 2 distinct synced (omega arith)
      (omega arith) (omega arith)

abbrev cursor : ChainCursor
cursor = new_cursor 5 4

advance_sound_example :
    (0 < 2)
    × (2 ≤ cursor.max_steps)
    × (iterate next_link 2 3 ≡ cursor.committed)
    × ((j : ℕ) → 0 < j → j < 2 → iterate next_link j 3 ≢ cursor.committed)
    × ((record cursor { committed = 3; consumed = 2 }).committed ≡ 3)
    × ((record cursor { committed = 3; consumed = 2 }).max_steps ≡ cursor.max_steps)
unfolding advance walk moved
advance_sound_example =
    advance_sound next_link cursor 3 2 (record cursor { committed = 3; consumed = 2 }) refl
