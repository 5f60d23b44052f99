-- ===== src/Consensus/Committee/Duty.antt =====
-- Who is on duty sits in the committee, and the weight on duty fits its 128 bits.
use vanargand.Common.{
  ℕ, zero, suc, ◌*◌, ◌%◌, ◌≤◌, ◌<◌, ◌≡◌, sym, ap, ◌∙◌, subst, some, List, [], ◌∷◌, map, min, arith,
  Option-cases, Bool-cases, ◌==◌, ◌||◌, inl, inr, unwrap_or,
}
use vanargand.Common.Lists.{length, get_elem?, sum_of, All, sum_of-map}
use vanargand.Types.Amount.{saturating_add, checked_sub, u64_bound}
use vanargand.Consensus.Weight.{
  Weight, u128_bound, weight_sum, weight_sum-some, weight_of_bond-bound,
}
use vanargand.Consensus.Seed.{SeedDigests, EpochSeed}
use vanargand.Consensus.Validator.{
  ValidatorSet, validator_weight, eligible, IsFiled, IsValidatorSet,
}
use vanargand.Consensus.Committee.{
  CommitteeMember, Committee, member_weight, candidate_of, remove_at, draw_seats, draw, find_weight,
  on_duty_from, active_at, active_weight_at, active, sampled,
}
use vanargand.Consensus.Committee.Draw.{
  Distinct, remove_at-All, draw_seats-step, draw_seats-stop, draw_seats-Distinct,
}
use vanargand.Consensus.Committee.Seats.{eligible-Distinct, get-find_weight}

-- The largest weight of a 64-bit bond.
abbrev pub IsBounded : CommitteeMember → Type 0
IsBounded m = m.weight ≤ 2 * u64_bound

-- No account sits twice, and no weight is larger than a 64-bit bond gives.
abbrev pub IsSeated : Committee → Type 0
IsSeated c = Distinct c.members × All IsBounded c.members

-- The committee finds a member's weight under its account.
abbrev pub IsWeighed : List CommitteeMember → CommitteeMember → Type 0
IsWeighed members m = find_weight m.account members ≡ some m.weight

All-get :
    (P : CommitteeMember → Type 0) (xs : List CommitteeMember) (i : ℕ) (m : CommitteeMember)
    → All P xs
    → get_elem? xs i ≡ some m
    → P m
All-get P [] i m h g = ground arith
All-get P (x ∷ xs) zero m h g = subst P (ap (λ o. unwrap_or o x) g) h.0
All-get P (x ∷ xs) (suc i) m h g = All-get P xs i m h.1 g

All-eq :
    (P : CommitteeMember → Type 0) {xs : List CommitteeMember} (ys : List CommitteeMember)
    → xs ≡ ys
    → All P ys
    → All P xs
All-eq P ys e h = subst (All P) (sym e) h

on_duty_from-All :
    (P : CommitteeMember → Type 0) (members : List CommitteeMember) (permutation : List ℕ)
    (offset step count : ℕ)
    → ((i : ℕ) (m : CommitteeMember) → get_elem? members i ≡ some m → P m)
    → All P (on_duty_from members permutation offset step count)
unfolding on_duty_from
on_duty_from-All P members permutation offset step zero h = tt
on_duty_from-All P members permutation offset step (suc count) h =
    let later = on_duty_from members permutation offset (suc step) count in
    let rest = on_duty_from-All P members permutation offset (suc step) count h in
    elim (Option-cases (get_elem? permutation (saturating_add offset step % length members))) [
      | inl n ↦ All-eq P later (ground arith) rest
      | inr (i, e) ↦ elim (Option-cases (get_elem? members i)) [
        | inl n ↦ All-eq P later (ground arith) rest
        | inr (m, g) ↦ All-eq P (m ∷ later) (ground arith) (h i m g, rest)
      ]
    ]

length-on_duty_from :
    (members : List CommitteeMember) (permutation : List ℕ) (offset step count : ℕ)
    → length (on_duty_from members permutation offset step count) ≤ count
unfolding on_duty_from
length-on_duty_from members permutation offset step zero = omega arith
length-on_duty_from members permutation offset step (suc count) =
    ground (arith, length-on_duty_from members permutation offset (suc step) count)

sum-bound :
    (xs : List CommitteeMember)
    → All IsBounded xs
    → sum_of member_weight xs ≤ length xs * (2 * u64_bound)
sum-bound [] h = omega arith
sum-bound (x ∷ xs) h = omega (arith, h.0, sum-bound xs h.1)

-- At most 64 members are on duty, so their weight fits 128 bits with room to triple it.
pub active_at-IsBounded :
    (c : Committee) (block_in_epoch : ℕ)
    → IsSeated c
    → All IsBounded (active_at c block_in_epoch)
      × (3 * sum_of member_weight (active_at c block_in_epoch) < u128_bound)
unfolding active_at
active_at-IsBounded c b (d, w) = elim (Bool-cases (length c.members == 0)) [
  | inl t ↦ rw t (tt, omega arith)
  | inr f ↦
      let offset = b % length c.members in
      let count = min active (length c.members) in
      let weights =
        on_duty_from-All IsBounded c.members c.permutation offset 0 count
          (λ i m g. All-get IsBounded c.members i m w g) in
      let few = length-on_duty_from c.members c.permutation offset 0 count in
      let sum = sum-bound (on_duty_from c.members c.permutation offset 0 count) weights in
      rw f (weights, omega (arith, few, sum))
]

-- The weight on duty is a true sum.
pub active_weight_at-sum :
    (c : Committee) (block_in_epoch : ℕ)
    → IsSeated c
    → active_weight_at c block_in_epoch ≡ sum_of member_weight (active_at c block_in_epoch)
unfolding active_weight_at
active_weight_at-sum c b s =
    let sum = sum_of-map member_weight (λ x. x) (active_at c b) in
    ap (λ o. unwrap_or o 0)
      (weight_sum-some (map member_weight (active_at c b))
        (omega (arith, sum, (active_at-IsBounded c b s).1)))
    ∙ sum

-- Who is on duty is found in the committee with the weight it has on duty.
pub active_at-IsWeighed :
    (c : Committee) (block_in_epoch : ℕ)
    → IsSeated c
    → All (IsWeighed c.members) (active_at c block_in_epoch)
unfolding active_at
active_at-IsWeighed c b (d, w) = elim (Bool-cases (length c.members == 0)) [
  | inl t ↦ rw t tt
  | inr f ↦ rw f (
      on_duty_from-All (IsWeighed c.members) c.members c.permutation (b % length c.members) 0
        (min active (length c.members)) (λ i m g. get-find_weight c.members i m d g))
]

-- A committee that is drawn from a valid validator set is seated.
candidates-IsBounded :
    (set : ValidatorSet) → All IsFiled set → All IsBounded (map candidate_of (eligible set))
unfolding eligible validator_weight
candidates-IsBounded [] h = tt
candidates-IsBounded ((a, r) ∷ set) (f, fs) =
    ground
      (arith, candidates-IsBounded set fs, weight_of_bond-bound r.bond r.multiplier f.1 f.2 f.3)

module _ (digests : SeedDigests) (seed : EpochSeed) where
  draw_seats-All :
      (P : CommitteeMember → Type 0) (seats round : ℕ) (left : Weight) (xs : List CommitteeMember)
      → All P xs
      → All P (draw_seats digests seed seats round left xs)
  unfolding draw_seats
  draw_seats-All P zero round left xs h = tt
  draw_seats-All P (suc seats) round left xs h =
      elim (Bool-cases ((length xs == 0) || (left == 0))) [
        | inl t ↦ All-eq P [] (draw_seats-stop digests seed (suc seats) round left xs t) tt
        | inr f ↦
            let (i, m, g, e) = draw_seats-step digests seed seats round left xs f in
            let after = unwrap_or (checked_sub left m.weight) 0 in
            All-eq P (m ∷ draw_seats digests seed seats (suc round) after (remove_at xs i)) e (
              All-get P xs i m h g,
              draw_seats-All P seats (suc round) after (remove_at xs i) (remove_at-All P xs i h),
            )
      ]

  pub draw-IsSeated : (set : ValidatorSet) → IsValidatorSet set → IsSeated (draw digests seed set)
  unfolding draw
  draw-IsSeated set v =
      let candidates = map candidate_of (eligible set) in
      let seats = min sampled (length candidates) in
      let left = unwrap_or (weight_sum (map member_weight candidates)) 0 in
      (
        draw_seats-Distinct digests seed seats 0 left candidates (eligible-Distinct set v),
        draw_seats-All IsBounded seats 0 left candidates (candidates-IsBounded set v.1),
      )
