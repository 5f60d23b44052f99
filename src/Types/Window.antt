-- ===== src/Types/Window.antt =====
-- The contestation window and the finality rungs of vanargand-types/src/block.rs.
use vanargand.Common.{ℕ, ◌+◌, ◌≤◌, ◌≡◌, Bool, true, false, none, some, leb, arith}
use vanargand.Types.Amount.{checked_add}

abbrev pub epoch_blocks : ℕ
epoch_blocks = 720

pub data FinalityRung : Type 0 where
  provisional chain federal : FinalityRung

unfoldable pub claimable_by_a_header : FinalityRung → Bool
claimable_by_a_header FinalityRung.provisional = true
claimable_by_a_header FinalityRung.chain = true
claimable_by_a_header FinalityRung.federal = false

pub record ContestationWindow : Type 0 where
  pub opened_at_finalized : ℕ
  pub duration : ℕ

unfoldable pub has_elapsed : ContestationWindow → ℕ → Bool
has_elapsed w current_finalized_height = elim (checked_add w.opened_at_finalized w.duration) [
  | none ↦ false
  | some deadline ↦ leb deadline current_finalized_height
]

-- Once elapsed a window stays elapsed at every later finalised height.
pub has_elapsed_mono :
    (w : ContestationWindow) (h h' : ℕ) → h ≤ h' → has_elapsed w h ≡ true → has_elapsed w h' ≡ true
unfolding has_elapsed
has_elapsed_mono w h h' le e = ground arith

-- An elapsed window has lasted its whole duration in finalised height.
pub has_elapsed-le :
    (w : ContestationWindow) (h : ℕ)
    → has_elapsed w h ≡ true
    → w.opened_at_finalized + w.duration ≤ h
unfolding has_elapsed
has_elapsed-le w h e = ground arith
