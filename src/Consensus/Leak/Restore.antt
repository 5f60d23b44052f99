-- ===== src/Consensus/Leak/Restore.antt =====
-- Once the weight of the silent has worn off, the present restore finality.
use native.Mathlib.Nat.{mul-zero, mul-div_left}
use vanargand.Common.{
  ℕ, ◌≤◌, ◌<◌, ◌≡◌, ◌⊎◌, refl, ap, ◌∙◌, true, false, List, [], ◌∷◌, map, arith, inl, inr, unwrap_or,
}
use vanargand.Common.Lists.{sum_of, All, sum_of-map}
use vanargand.Common.Map.{Set, contains}
use vanargand.Common.Map.Keys.{nat_key}
use vanargand.Types.Tx.{AccountId}
use vanargand.Consensus.Weight.{weight_sum-some, scaled, lt-exceeds_two_thirds_of}
use vanargand.Consensus.Committee.{CommitteeMember, Committee, member_weight, active_at}
use vanargand.Consensus.Committee.Duty.{IsSeated, IsBounded, active_at-IsBounded}
use vanargand.Consensus.Leak.{
  LeakState, missed, remaining_fraction, effective_weight, effective_member, signing,
  effective_active_weight, effective_signed_weight, restores_finality,
}
use vanargand.Consensus.Leak.Liveness.{
  leak_end, observe_all, duties_of, missed-observe_all, signs-observe_all,
}

-- A member that signs and has missed nothing, or one that has nothing left.
abbrev IsSettled : LeakState → Set AccountId → CommitteeMember → Type 0
IsSettled leak signers m =
    ((contains m.account signers ≡ true) × (missed leak m.account ≡ 0))
    ⊎ ((contains m.account signers ≡ false) × (leak_end ≤ missed leak m.account))

effective-present :
    (leak : LeakState) (m : CommitteeMember)
    → IsBounded m
    → missed leak m.account ≡ 0
    → effective_member leak m ≡ m.weight
unfolding effective_weight remaining_fraction scaled
effective-present leak m b h = ground (arith, mul-div_left m.weight)

effective-silent :
    (leak : LeakState) (m : CommitteeMember)
    → leak_end ≤ missed leak m.account
    → effective_member leak m ≡ 0
unfolding effective_weight remaining_fraction scaled
effective-silent leak m h =
    let spent : remaining_fraction leak m.account ≡ 0 = omega (arith, h) in
    rw spent (ground (arith, mul-zero m.weight))

settled-sum :
    (leak : LeakState) (signers : Set AccountId) (ms : List CommitteeMember)
    → All (IsSettled leak signers) ms
    → All IsBounded ms
    → (sum_of (effective_member leak) ms ≡ sum_of member_weight (signing signers ms))
      × (sum_of (effective_member leak) (signing signers ms)
          ≡ sum_of member_weight (signing signers ms))
unfolding signing
settled-sum leak signers [] h b = (refl, refl)
settled-sum leak signers (m ∷ ms) (inl (c, z), hs) b =
    ground (arith, effective-present leak m b.0 z, settled-sum leak signers ms hs b.1)
settled-sum leak signers (m ∷ ms) (inr (c, z), hs) b =
    ground (arith, effective-silent leak m z, settled-sum leak signers ms hs b.1)

signing-bound :
    (signers : Set AccountId) (ms : List CommitteeMember)
    → sum_of member_weight (signing signers ms) ≤ sum_of member_weight ms
unfolding signing
signing-bound signers [] = omega arith
signing-bound signers (m ∷ ms) = ground (arith, signing-bound signers ms)

-- What is left of the weights fits 128 bits.
effective-sums :
    (leak : LeakState) (c : Committee) (b : ℕ) (signers : Set AccountId)
    → IsSeated c
    → All (IsSettled leak signers) (active_at c b)
    → (effective_active_weight leak c b ≡ sum_of member_weight (signing signers (active_at c b)))
      × (effective_signed_weight leak c b signers
          ≡ sum_of member_weight (signing signers (active_at c b)))
unfolding effective_active_weight effective_signed_weight
effective-sums leak c b signers s h =
    let duty = active_at c b in
    let (bounded, fits) = active_at-IsBounded c b s in
    let (whole, signed) = settled-sum leak signers duty h bounded in
    let sum_whole = sum_of-map (effective_member leak) (λ x. x) duty in
    let sum_signed = sum_of-map (effective_member leak) (λ x. x) (signing signers duty) in
    let bound = signing-bound signers duty in
    (
      ap (λ o. unwrap_or o 0)
            (weight_sum-some (map (effective_member leak) duty)
              (omega (arith, sum_whole, whole, bound, fits)))
          ∙ sum_whole
          ∙ whole,
      ap (λ o. unwrap_or o 0)
            (weight_sum-some (map (effective_member leak) (signing signers duty))
              (omega (arith, sum_signed, signed, bound, fits)))
          ∙ sum_signed
          ∙ signed,
    )

-- Of the members on duty each one signs and was on duty in the stretch, or is silent and was on
-- duty in it at 14 epochs of blocks.
abbrev pub IsHeardOut : List (List CommitteeMember) → Set AccountId → CommitteeMember → Type 0
IsHeardOut duties signers m =
    ((contains m.account signers ≡ true) × (0 < duties_of m.account duties))
    ⊎ ((contains m.account signers ≡ false) × (leak_end ≤ duties_of m.account duties))

heard_out-IsSettled :
    (leak : LeakState) (duties : List (List CommitteeMember)) (signers : Set AccountId)
    (ms : List CommitteeMember)
    → All (IsHeardOut duties signers) ms
    → All (IsSettled (observe_all leak duties signers) signers) ms
heard_out-IsSettled leak duties signers [] h = tt
heard_out-IsSettled leak duties signers (m ∷ ms) (inl (c, p), hs) = (
  inl (c, signs-observe_all leak duties signers m.account c (inr p)),
  heard_out-IsSettled leak duties signers ms hs,
)
heard_out-IsSettled leak duties signers (m ∷ ms) (inr (c, p), hs) = (
  inr (
    c,
    omega (arith, missed-observe_all leak duties signers m.account 0 c (omega arith) (omega arith)),
  ),
  heard_out-IsSettled leak duties signers ms hs,
)

-- A committee whose finality stalls recovers it: from whatever counters of missed blocks, after a
-- stretch of blocks that the same members sign, if every member now on duty either signs and was on
-- duty in the stretch, or is silent and was on duty at 10,080 of its blocks (the grace of two and
-- the period of twelve epochs), then the signers on duty restore finality, however small their
-- weight is beside the others', if it is positive. The committee seats nobody twice and its weights
-- are those of 64-bit bonds.
pub observe-restores_finality :
    (leak : LeakState) (duties : List (List CommitteeMember)) (signers : Set AccountId)
    (c : Committee) (b : ℕ)
    → IsSeated c
    → All (IsHeardOut duties signers) (active_at c b)
    → 0 < sum_of member_weight (signing signers (active_at c b))
    → restores_finality (observe_all leak duties signers) c b signers ≡ true
unfolding restores_finality
observe-restores_finality leak duties signers c b s h p =
    let after = observe_all leak duties signers in
    let (whole, signed) =
      effective-sums after c b signers s
        (heard_out-IsSettled leak duties signers (active_at c b) h) in
    let bound = signing-bound signers (active_at c b) in
    let fits = (active_at-IsBounded c b s).1 in
    lt-exceeds_two_thirds_of (effective_signed_weight after c b signers)
      (effective_active_weight after c b) (omega (arith, whole, signed, p))
      (omega (arith, signed, bound, fits))
