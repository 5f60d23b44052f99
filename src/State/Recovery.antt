-- ===== src/State/Recovery.antt =====
-- vanargand-state/src/recovery.rs: social recovery, one approval at a time.
pub mod Laws
pub mod Quorum
use vanargand.Common.{
  ℕ, ◌*◌, ◌^◌, Bool, true, false, Option, none, some, ltb, ◌==◌, ◌&&◌, if◌then◌else◌, Result, ok,
  err, not, List, [], ◌∷◌,
}
use vanargand.Common.Map.{Map, Set, lookup, contains, insert, remove}
use vanargand.Common.Map.Keys.{nat_key, bytes_same}
use vanargand.Common.Lists.{length}
use vanargand.Types.Amount.{saturating_add}
use vanargand.Types.Tx.{AccountId, VerifyingKey}
use vanargand.Types.Tx.Grammar.{count_u32}
use vanargand.Types.Window.{ContestationWindow, has_elapsed, epoch_blocks}

abbrev pub recovery_window_finalized_blocks : ℕ
recovery_window_finalized_blocks = 72 * epoch_blocks

pub record PendingRecovery : Type 0 where
  pub new_root_key : VerifyingKey
  pub approvals : Set AccountId
  pub window : ContestationWindow

pub data RecoveryError : Type 0 where
  not_a_guardian : AccountId → RecoveryError
  no_guardians : RecoveryError
  already_approved : AccountId → RecoveryError
  conflicting_key not_recovering : RecoveryError
  window_open : ℕ → ℕ → RecoveryError
  below_threshold : ℕ → ℕ → RecoveryError

pub record RecoveryBook : Type 0 where
  pub pending : Map AccountId PendingRecovery

abbrev pub new_recovery_book : RecoveryBook
new_recovery_book = record { pending = [] }

abbrev pub same_key : VerifyingKey → VerifyingKey → Bool
same_key k l = (k.algorithm == l.algorithm) && bytes_same k.bytes l.bytes

unfoldable pub approval_count : PendingRecovery → ℕ
approval_count p = count_u32 (length p.approvals)

unfoldable pub approve :
    RecoveryBook
    → AccountId
    → VerifyingKey
    → AccountId
    → Set AccountId
    → ContestationWindow
    → Result RecoveryError RecoveryBook
approve b target new_root_key guardian guardians window =
    if length guardians == 0
    then err no_guardians
    else if not (contains guardian guardians)
    then err (not_a_guardian guardian)
    else elim (lookup target b.pending) [
      | some existing ↦
          if not (same_key existing.new_root_key new_root_key)
          then err conflicting_key
          else if contains guardian existing.approvals
          then err (already_approved guardian)
          else ok (record {
            pending =
                insert target
                  (record existing { approvals = insert guardian tt existing.approvals }) b.pending;
          })
      | none ↦ ok (record {
        pending =
            insert target
              (record {
                new_root_key = new_root_key;
                approvals = insert guardian tt [];
                window = window;
              })
              b.pending;
      })
    ]

unfoldable pub cancel :
    RecoveryBook → AccountId → Result RecoveryError (PendingRecovery × RecoveryBook)
cancel b target = elim (lookup target b.pending) [
  | none ↦ err not_recovering
  | some p ↦ ok (p, record { pending = remove target b.pending })
]

unfoldable pub finalise :
    RecoveryBook → AccountId → ℕ → ℕ → Result RecoveryError (VerifyingKey × RecoveryBook)
unfolding approval_count
finalise b target threshold finalized_height = elim (lookup target b.pending) [
  | none ↦ err not_recovering
  | some p ↦
      if ltb (approval_count p) threshold
      then err (below_threshold (approval_count p) threshold)
      else if not (has_elapsed p.window finalized_height)
      then err (
          window_open finalized_height
            (saturating_add p.window.opened_at_finalized p.window.duration))
      else ok (p.new_root_key, record { pending = remove target b.pending })
]
