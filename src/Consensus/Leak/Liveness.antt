-- ===== src/Consensus/Leak/Liveness.antt =====
-- Silence ends: once the weight of the silent has worn off, the present finalise again.
use vanargand.Common.{
  ℕ, suc, ◌+◌, ◌≤◌, ◌<◌, ◌≡◌, ◌⊎◌, refl, sym, ap, ◌∙◌, true, false, List, [], ◌∷◌, min, arith,
  Bool-cases, inl, inr, unwrap_or, if◌then◌else◌, ◌==◌, ==_iff,
}
use vanargand.Common.Map.{Set, lookup, contains}
use vanargand.Common.Map.Keys.{nat_key}
use vanargand.Common.Map.Laws.{lookup-insert, lookup-insert_self, lookup-remove, lookup-remove_self}
use vanargand.Types.Amount.{saturating_add}
use vanargand.Types.Tx.{AccountId}
use vanargand.Consensus.Committee.{CommitteeMember, is_member}
use vanargand.Consensus.Leak.{
  LeakState, leak_grace_blocks, leak_period_blocks, missed, observe_member, observe,
}

-- The duties after which nothing of a silent member's weight is left.
abbrev pub leak_end : ℕ
leak_end = leak_grace_blocks + leak_period_blocks

-- The blocks of a stretch, by who was on duty at each, with the same signers at all of them.
unfoldable pub observe_all : LeakState → List (List CommitteeMember) → Set AccountId → LeakState
observe_all leak [] signers = leak
observe_all leak (duty ∷ duties) signers = observe_all (observe leak duty signers) duties signers

-- At how many of the blocks an account was on duty.
unfoldable pub duties_of : AccountId → List (List CommitteeMember) → ℕ
duties_of a [] = 0
duties_of a (duty ∷ duties) = (if is_member a duty then 1 else 0) + duties_of a duties

-- One duty of a member, as another account and as the member sees it.
missed-other :
    (leak : LeakState) (m : CommitteeMember) (signers : Set AccountId) (a : AccountId)
    → (m.account == a) ≡ false
    → missed (observe_member leak m signers) a ≡ missed leak a
unfolding observe_member missed
missed-other leak m signers a h = ground (
  arith,
  lookup-insert m.account a (saturating_add (unwrap_or (lookup m.account leak) 0) 1) leak,
  lookup-remove m.account a leak,
)

missed-silent :
    (leak : LeakState) (m : CommitteeMember) (signers : Set AccountId)
    → contains m.account signers ≡ false
    → missed (observe_member leak m signers) m.account ≡ saturating_add (missed leak m.account) 1
unfolding observe_member missed
missed-silent leak m signers c =
    rw
      (
        c,
        lookup-insert_self m.account (saturating_add (unwrap_or (lookup m.account leak) 0) 1) leak,
      )
      refl

missed-present :
    (leak : LeakState) (m : CommitteeMember) (signers : Set AccountId)
    → contains m.account signers ≡ true
    → missed (observe_member leak m signers) m.account ≡ 0
unfolding observe_member missed
missed-present leak m signers c = rw (c, lookup-remove_self m.account leak) refl

-- The duties of a silent account are counted, up to the end of its weight.
missed-observe :
    (leak : LeakState) (duty : List CommitteeMember) (signers : Set AccountId) (a : AccountId)
    (n : ℕ)
    → contains a signers ≡ false
    → n ≤ missed leak a
    → n ≤ leak_end
    → min leak_end (n + (if is_member a duty then 1 else 0)) ≤ missed (observe leak duty signers) a
unfolding observe is_member
missed-observe leak [] signers a n c h l = omega (arith, h)
missed-observe leak (m ∷ duty) signers a n c h l = elim (Bool-cases (m.account == a)) [
  | inl t ↦
      let same = (==_iff m.account a).0 t in
      let counted =
        ap (missed (observe_member leak m signers)) (sym same)
        ∙ missed-silent leak m signers (ap (λ k. contains k signers) same ∙ c)
        ∙ ap (λ k. saturating_add (missed leak k) 1) same in
      ground (
        arith,
        missed-observe (observe_member leak m signers) duty signers a (min leak_end (suc n)) c
            (ground (arith, counted)) (omega arith),
      )
  | inr f ↦ ground (
    arith,
    missed-observe (observe_member leak m signers) duty signers a n c
        (ground (arith, missed-other leak m signers a f)) l,
  )
]

pub missed-observe_all :
    (leak : LeakState) (duties : List (List CommitteeMember)) (signers : Set AccountId)
    (a : AccountId) (n : ℕ)
    → contains a signers ≡ false
    → n ≤ missed leak a
    → n ≤ leak_end
    → min leak_end (n + duties_of a duties) ≤ missed (observe_all leak duties signers) a
unfolding observe_all duties_of
missed-observe_all leak [] signers a n c h l = omega (arith, h)
missed-observe_all leak (duty ∷ duties) signers a n c h l = omega (
  arith,
  missed-observe_all (observe leak duty signers) duties signers a
      (min leak_end (n + (if is_member a duty then 1 else 0))) c
      (missed-observe leak duty signers a n c h l) (omega arith),
)

-- An account that signs has missed nothing once it was on duty.
signs-observe :
    (leak : LeakState) (duty : List CommitteeMember) (signers : Set AccountId) (a : AccountId)
    → contains a signers ≡ true
    → (missed leak a ≡ 0) ⊎ (is_member a duty ≡ true)
    → missed (observe leak duty signers) a ≡ 0
unfolding observe is_member
signs-observe leak [] signers a c (inl z) = z
signs-observe leak [] signers a c (inr z) = ground arith
signs-observe leak (m ∷ duty) signers a c z = elim (Bool-cases (m.account == a)) [
  | inl t ↦
      let same = (==_iff m.account a).0 t in
      signs-observe (observe_member leak m signers) duty signers a c (
        inl (
          ap (missed (observe_member leak m signers)) (sym same)
          ∙ missed-present leak m signers (ap (λ k. contains k signers) same ∙ c)))
  | inr f ↦
      signs-observe (observe_member leak m signers) duty signers a c
        (ground (arith, missed-other leak m signers a f))
]

pub signs-observe_all :
    (leak : LeakState) (duties : List (List CommitteeMember)) (signers : Set AccountId)
    (a : AccountId)
    → contains a signers ≡ true
    → (missed leak a ≡ 0) ⊎ (0 < duties_of a duties)
    → missed (observe_all leak duties signers) a ≡ 0
unfolding observe_all duties_of
signs-observe_all leak [] signers a c (inl z) = z
signs-observe_all leak [] signers a c (inr z) = ground arith
signs-observe_all leak (duty ∷ duties) signers a c z = elim (Bool-cases (is_member a duty)) [
  | inl t ↦
      signs-observe_all (observe leak duty signers) duties signers a c
        (inl (signs-observe leak duty signers a c (inr t)))
  | inr f ↦ signs-observe_all (observe leak duty signers) duties signers a c (elim z [
    | inl y ↦ inl (signs-observe leak duty signers a c (inl y))
    | inr p ↦ inr (ground arith)
  ])
]
