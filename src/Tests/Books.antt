-- ===== src/Tests/Books.antt =====
-- Small assets, names, recoveries and offences, and the splits of value.
use vanargand.Common.{
  ℕ, ◌+◌, ◌*◌, ◌≤◌, ◌<◌, ◌≡◌, ◌≢◌, refl, true, false, none, some, ok, err, arith, [], ◌∷◌, ◌⊎◌, ◌↔◌,
}
use vanargand.Common.Lists.{All, length}
use vanargand.Common.Map.{lookup, contains, insert, place, remove, replace}
use vanargand.Common.Map.Keys.{nat_key, bytes_key}
use vanargand.Types.Amount.{u64_bound, fee_split_of, fee_split_total}
use vanargand.Types.Amount.Splits.{fee_split_exact}
use vanargand.Types.Nonce.{Lane, Nonce, new_lanes, next_sequence, consume}
use vanargand.Types.Nonce.Laws.{consume_lem}
use vanargand.Types.Window.{has_elapsed}
use vanargand.Types.Name.Grammar.{IsLabel, new_name_iff}
use vanargand.Types.Name.{Name, is_premium, new_name}
use vanargand.Types.Tx.{AssetId, VerifyingKey}
use vanargand.Types.Tx.Grammar.{check_provisional_grammar, check_provisional_grammar_iff, IsOffline}
use vanargand.State.Asset.{AssetRegistry, AssetRecord, authorise_mint}
use vanargand.State.Asset.Laws.{authorise_mint-ok}
use vanargand.State.NameBook.{
  CommitmentRecord, NameBook, reveal, owner, min_reveal_delay_finalized_blocks,
  commitment_expiry_finalized_blocks,
}
use vanargand.State.NameBook.Laws.{reveal-ok}
use vanargand.State.Recovery.{approve, RecoveryBook, finalise, approval_count}
use vanargand.State.Recovery.Quorum.{Approval, approve_all, AreDistinct, recovery_quorum}
use vanargand.State.Slashing.{
  SlashingBook, AccountOffence, record_account, already_punished, account_offence_key,
  record_account_once,
}
use vanargand.Tests.Ledger.{crypto, payment}

abbrev coin : AssetRecord
coin = record { issuer = 1; ticker = 102 ∷ []; decimals = 2; reissuable = true; supply = 50 }

abbrev registry : AssetRegistry
registry = record { assets = (8, coin) ∷ []; tickers = (102 ∷ [], 8) ∷ [] }

abbrev other_account : ℕ
other_account = 2

abbrev other_asset : AssetId
other_asset = 9

abbrev minted : AssetRegistry
minted = record registry { assets = (8, record coin { supply = 80 }) ∷ [] }

abbrev long_name : Name
long_name = 97 ∷ 98 ∷ 99 ∷ 100 ∷ 101 ∷ 102 ∷ []

abbrev staked : NameBook
staked = record {
  owners = [];
  commitments = (6, record { account = 1; committed_at_finalized = 100 }) ∷ [];
}

abbrev revealed : NameBook
revealed = record { owners = (long_name, 1) ∷ []; commitments = [] }

abbrev key : VerifyingKey
key = record { algorithm = 1; bytes = 5 ∷ [] }

abbrev nothing_pending : RecoveryBook
nothing_pending = record { pending = [] }

abbrev offence : AccountOffence
offence = record { account = 1; device = 11; lane = 0; sequence = 0 }

abbrev other_offence : AccountOffence
other_offence = record offence { sequence = 1 }

abbrev clean : SlashingBook
clean = record { accounts = []; validators = [] }

abbrev recorded : SlashingBook
recorded = record clean { accounts = (offence, tt) ∷ [] }

abbrev first_nonce : Nonce
first_nonce = record { lane = 0; sequence = 0 }

fee_split_exact_example :
    (fee_split_total (fee_split_of 100) ≡ some 100)
    × (100 ≤ 10 * (fee_split_of 100).burn)
    × (0 < 100 → 0 < (fee_split_of 100).burn)
fee_split_exact_example = fee_split_exact 100 (omega arith)

consume_lem_example :
    ((consume new_lanes first_nonce).1 ≡ true
      → (first_nonce.sequence ≡ next_sequence new_lanes first_nonce.lane)
        × (first_nonce.sequence + 1 < u64_bound)
        × (next_sequence (consume new_lanes first_nonce).0 first_nonce.lane
            ≡ first_nonce.sequence + 1)
        × ((lane : Lane)
            → lane ≢ first_nonce.lane
            → next_sequence (consume new_lanes first_nonce).0 lane ≡ next_sequence new_lanes lane))
    × ((consume new_lanes first_nonce).1 ≡ false → (consume new_lanes first_nonce).0 ≡ new_lanes)
    × (first_nonce.sequence ≡ next_sequence new_lanes first_nonce.lane
        → first_nonce.sequence + 1 < u64_bound
        → (consume new_lanes first_nonce).1 ≡ true)
consume_lem_example = consume_lem new_lanes first_nonce

check_provisional_grammar_iff_example :
    (check_provisional_grammar (payment ∷ []) ≡ ok tt) ↔ All (λ b. IsOffline b.kind) (payment ∷ [])
check_provisional_grammar_iff_example = check_provisional_grammar_iff (payment ∷ [])

new_name_iff_example :
    (new_name long_name ≡ ok long_name)
    ↔ ((long_name ≡ long_name) × (length long_name ≤ 32) × IsLabel false long_name)
new_name_iff_example = new_name_iff long_name long_name

authorise_mint-ok_example :
    (a : AssetRecord) × (lookup 8 registry.assets ≡ some a)
    × (a.issuer ≡ 1)
    × (0 < 30)
    × ((a.reissuable ≡ true) ⊎ (a.supply ≡ 0))
    × (a.supply + 30 < u64_bound)
    × (lookup 8 minted.assets ≡ some (record a { supply = a.supply + 30 }))
    × (other_asset ≢ 8 → lookup other_asset minted.assets ≡ lookup other_asset registry.assets)
    × (minted.tickers ≡ registry.tickers)
unfolding authorise_mint lookup insert replace
authorise_mint-ok_example = authorise_mint-ok registry minted 8 other_asset 1 30 refl

reveal-ok_example :
    (entry : CommitmentRecord) × (lookup (crypto.name_commitment long_name 5 1) staked.commitments
      ≡ some entry)
    × (entry.account ≡ 1)
    × (entry.committed_at_finalized + min_reveal_delay_finalized_blocks ≤ 200)
    × (200 ≤ entry.committed_at_finalized + commitment_expiry_finalized_blocks)
    × (6 ≤ length long_name)
    × (owner staked long_name ≡ none)
    × (owner revealed long_name ≡ some 1)
    × ((97 ∷ []) ≢ long_name → owner revealed (97 ∷ []) ≡ owner staked (97 ∷ []))
    × (lookup (crypto.name_commitment long_name 5 1) revealed.commitments ≡ none)
unfolding reveal is_premium lookup owner insert place remove
reveal-ok_example =
    reveal-ok crypto.name_commitment staked revealed long_name (97 ∷ []) 5 1 200 (omega arith) refl

abbrev first_approval : Approval
first_approval = record {
  key = key;
  guardian = 2;
  guardians = (2, tt) ∷ (3, tt) ∷ [];
  window = record { opened_at_finalized = 10; duration = 5 };
}

abbrev second_approval : Approval
second_approval = record first_approval {
  guardian = 3;
  window = record { opened_at_finalized = 12; duration = 5 };
}

abbrev both_approved : RecoveryBook
both_approved = record {
  pending =
      (
        1,
        record {
          new_root_key = key;
          approvals = (2, tt) ∷ (3, tt) ∷ [];
          window = first_approval.window;
        },
      )
      ∷ [];
}

collected : approve_all nothing_pending 1 (first_approval ∷ second_approval ∷ []) ≡ ok both_approved
unfolding approve_all approve lookup insert place replace
collected = refl

recovered : finalise both_approved 1 2 15 ≡ ok (key, nothing_pending)
unfolding finalise approval_count lookup remove has_elapsed
recovered = refl

nothing_there : lookup 1 nothing_pending.pending ≡ none
unfolding lookup
nothing_there = refl

recovery_quorum_example :
    (2 ≤ length (first_approval ∷ second_approval ∷ []))
    × AreDistinct (first_approval ∷ second_approval ∷ [])
    × All
        (λ s. (s.key ≡ key) × (contains s.guardian s.guardians ≡ true))
        (first_approval ∷ second_approval ∷ [])
    × (first_approval.window.opened_at_finalized + first_approval.window.duration ≤ 15)
    × (lookup 1 nothing_pending.pending ≡ none)
recovery_quorum_example =
    recovery_quorum nothing_pending both_approved nothing_pending 1 first_approval
      (second_approval ∷ []) 2 15 key nothing_there collected recovered

record_account_once_example :
    (record_account recorded offence ≡ err already_punished)
    × (other_offence ≢ offence
        → contains other_offence recorded.accounts ≡ contains other_offence clean.accounts)
    × (contains offence clean.accounts ≡ false)
    × (recorded.validators ≡ clean.validators)
unfolding record_account lookup insert place
record_account_once_example = record_account_once clean recorded offence other_offence refl
