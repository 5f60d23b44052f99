-- ===== src/State/Recovery/Laws.antt =====
-- A recovery collects distinct guardians for one key under one window, and completes only with both
-- the threshold and the elapsed window.
use vanargand.Common.{
  ℕ, ◌+◌, ◌≤◌, ◌≡◌, ◌≢◌, refl, true, false, none, some, arith, ok, err, Option-cases, inl, inr, [],
  ◌⊎◌,
}
use vanargand.Common.Map.{Set, lookup, contains, insert}
use vanargand.Common.Map.Keys.{nat_key, bytes_same_iff}
use vanargand.Common.Map.Laws.{
  lookup-insert, lookup-insert_self, lookup-insert_ne, lookup-remove, lookup-remove_self,
}
use vanargand.Types.Tx.{AccountId, VerifyingKey}
use vanargand.Types.Window.{ContestationWindow, has_elapsed-le}
use vanargand.Common.Lists.{length}
use vanargand.State.Recovery.{
  RecoveryBook, PendingRecovery, not_recovering, same_key, approval_count, approve, cancel,
  finalise,
}

pub same_key→eq : (k l : VerifyingKey) → same_key k l ≡ true → k ≡ l
same_key→eq k l h = ground (arith, bytes_same_iff k.bytes l.bytes)

-- An approval is by a guardian that had not approved. It joins the pending recovery, whose key must
-- be the same and whose window does not restart, or opens one under the key and the window given;
-- no other approval appears, and no other account's recovery changes.
pub approve-ok :
    (b b' : RecoveryBook) (target other : AccountId) (key : VerifyingKey) (guardian g : AccountId)
    (guardians : Set AccountId) (window : ContestationWindow)
    → approve b target key guardian guardians window ≡ ok b'
    → (p : PendingRecovery) × (lookup target b'.pending ≡ some p)
      × (contains guardian guardians ≡ true)
      × (p.new_root_key ≡ key)
      × (contains guardian p.approvals ≡ true)
      × (((lookup target b.pending ≡ none)
            × (p.window ≡ window)
            × (contains g p.approvals ≡ true → g ≡ guardian))
          ⊎ ((old : PendingRecovery) × (lookup target b.pending ≡ some old)
              × (p.window ≡ old.window)
              × (contains guardian old.approvals ≡ false)
              × (contains g p.approvals ≡ true
                  → (g ≡ guardian) ⊎ (contains g old.approvals ≡ true))))
      × (other ≢ target → lookup other b'.pending ≡ lookup other b.pending)
unfolding approve
approve-ok b b' target other key guardian g guardians window h =
    elim (Option-cases (lookup target b.pending)) [
      | inl fresh ↦
          let p : PendingRecovery = record {
            new_root_key = key;
            approvals = insert guardian tt [];
            window = window;
          } in
          (
            p,
            ground (arith, fresh, lookup-insert_self target p b.pending),
            ground (arith, fresh),
            refl,
            ground (arith, lookup-insert_self guardian tt []),
            inl (fresh, refl, unfold lookup in ground (arith, lookup-insert guardian g tt [])),
            λ ne. ground (arith, fresh, lookup-insert_ne target other p b.pending),
          )
      | inr (old, found) ↦
          let p : PendingRecovery = record old { approvals = insert guardian tt old.approvals } in
          (
            p,
            ground (arith, found, lookup-insert_self target p b.pending),
            ground (arith, found),
            same_key→eq old.new_root_key key (ground (arith, found)),
            ground (arith, lookup-insert_self guardian tt old.approvals),
            inr (
              old,
              found,
              refl,
              ground (arith, found),
              λ member. ground (arith, lookup-insert guardian g tt old.approvals),
            ),
            λ ne. ground (arith, found, lookup-insert_ne target other p b.pending),
          )
    ]

-- A recovery completes only where it is pending, with at least the threshold of entries in its set
-- of approvals, and no sooner than its whole duration of finalised blocks after it was opened; it
-- hands out the key that was approved, the account is in recovery no more, and no other account's
-- recovery changes.
pub finalise-ok :
    (b b' : RecoveryBook) (target other : AccountId) (threshold height : ℕ) (key : VerifyingKey)
    → finalise b target threshold height ≡ ok (key, b')
    → (p : PendingRecovery) × (lookup target b.pending ≡ some p)
      × (threshold ≤ length p.approvals)
      × (p.window.opened_at_finalized + p.window.duration ≤ height)
      × (key ≡ p.new_root_key)
      × (lookup target b'.pending ≡ none)
      × (other ≢ target → lookup other b'.pending ≡ lookup other b.pending)
unfolding finalise approval_count
finalise-ok b b' target other threshold height key h =
    elim (Option-cases (lookup target b.pending)) [
      | inl missing ↦ absurd (ground (arith, missing))
      | inr (p, found) ↦ (
        p,
        found,
        ground (arith, found),
        has_elapsed-le p.window height (ground (arith, found)),
        ground (arith, found),
        ground (arith, found, lookup-remove_self target b.pending),
        λ ne. ground (arith, found, lookup-remove target other b.pending),
      )
    ]

-- A cancelled recovery cannot be completed, at any threshold and height.
pub cancel-finalise :
    (b b' : RecoveryBook) (target : AccountId) (p : PendingRecovery) (threshold height : ℕ)
    → cancel b target ≡ ok (p, b')
    → finalise b' target threshold height ≡ err not_recovering
unfolding cancel finalise
cancel-finalise b b' target p threshold height h =
    ground (arith, lookup-remove_self target b.pending)
