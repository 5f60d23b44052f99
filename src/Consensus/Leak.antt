-- ===== src/Consensus/Leak.antt =====
-- vanargand-consensus/src/leak.rs: the weight of members that stay silent wears off.
pub mod Liveness
pub mod Restore
use vanargand.Common.{
  ℕ, ◌+◌, ◌-◌, ◌*◌, Bool, true, false, List, [], ◌∷◌, if◌then◌else◌, unwrap_or, map,
}
use vanargand.Common.Map.{Map, Set, lookup, contains, insert, remove}
use vanargand.Common.Map.Keys.{nat_key}
use vanargand.Types.Amount.{saturating_add}
use vanargand.Types.Tx.{AccountId}
use vanargand.Types.Window.{epoch_blocks}
use vanargand.Consensus.Weight.{Weight, weight_sum, scaled, exceeds_two_thirds_of}
use vanargand.Consensus.Committee.{CommitteeMember, Committee, active_at}

abbrev pub leak_grace_blocks : ℕ
leak_grace_blocks = 2 * epoch_blocks

abbrev pub leak_period_blocks : ℕ
leak_period_blocks = 12 * epoch_blocks

-- `LeakState`: the missed duties of each account.
abbrev pub LeakState : Type 0
LeakState = Map AccountId ℕ

unfoldable pub missed : LeakState → AccountId → ℕ
missed leak account = unwrap_or (lookup account leak) 0

-- The body of the loop of `observe`.
unfoldable pub observe_member : LeakState → CommitteeMember → Set AccountId → LeakState
observe_member leak m signers =
    if contains m.account signers
    then remove m.account leak
    else insert m.account (saturating_add (unwrap_or (lookup m.account leak) 0) 1) leak

unfoldable pub observe : LeakState → List CommitteeMember → Set AccountId → LeakState
unfolding observe_member
observe leak [] signers = leak
observe leak (m ∷ on_duty) signers = observe (observe_member leak m signers) on_duty signers

unfoldable pub reset : LeakState → AccountId → LeakState
reset leak account = remove account leak

unfoldable pub clear : LeakState → LeakState
clear leak = []

-- The numerator of `remaining_fraction`; its denominator is `leak_period_blocks`.
unfoldable pub remaining_fraction : LeakState → AccountId → ℕ
unfolding missed
remaining_fraction leak account = leak_period_blocks - (missed leak account - leak_grace_blocks)

unfoldable pub effective_weight : LeakState → AccountId → Weight → Weight
unfolding remaining_fraction scaled
effective_weight leak account weight =
    scaled weight (remaining_fraction leak account) leak_period_blocks

abbrev pub effective_member : LeakState → CommitteeMember → Weight
effective_member leak m = effective_weight leak m.account m.weight

-- `filter(|member| signers.contains(&member.account))`
unfoldable pub signing : Set AccountId → List CommitteeMember → List CommitteeMember
signing signers [] = []
signing signers (m ∷ ms) =
    let rest = signing signers ms in if contains m.account signers then m ∷ rest else rest

unfoldable pub effective_active_weight : LeakState → Committee → ℕ → Weight
unfolding active_at weight_sum effective_weight
effective_active_weight leak committee block_in_epoch =
    unwrap_or (weight_sum (map (effective_member leak) (active_at committee block_in_epoch))) 0

unfoldable pub effective_signed_weight : LeakState → Committee → ℕ → Set AccountId → Weight
unfolding active_at weight_sum effective_weight signing
effective_signed_weight leak committee block_in_epoch signers =
    unwrap_or
      (weight_sum
        (map (effective_member leak) (signing signers (active_at committee block_in_epoch))))
      0

unfoldable pub restores_finality : LeakState → Committee → ℕ → Set AccountId → Bool
unfolding effective_signed_weight effective_active_weight exceeds_two_thirds_of
restores_finality leak committee block_in_epoch signers =
    exceeds_two_thirds_of (effective_signed_weight leak committee block_in_epoch signers)
      (effective_active_weight leak committee block_in_epoch)
