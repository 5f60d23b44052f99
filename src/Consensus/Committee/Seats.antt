-- ===== src/Consensus/Committee/Seats.antt =====
-- Who sits in a committee that was drawn from a validator set.
use vanargand.Common.{
  ℕ, zero, suc, ◌<◌, ◌≡◌, refl, sym, ap, ◌∙◌, false, none, some, List, [], ◌∷◌, ◌==◌, ==_iff,
  unwrap_or, map, min, arith, Bool-cases, inl, inr, ◌||◌,
}
use vanargand.Common.Lists.{length, get_elem?, sum_of, All, length-map, sum_of-map}
use vanargand.Common.Map.{lookup}
use vanargand.Common.Map.Keys.{nat_key}
use vanargand.Types.Amount.{checked_sub}
use vanargand.Types.Tx.{AccountId}
use vanargand.Consensus.Weight.{Weight, weight_sum, weight_sum-eq}
use vanargand.Consensus.Seed.{SeedDigests, EpochSeed}
use vanargand.Consensus.Validator.{
  ValidatorRecord, ValidatorSet, validator_weight, total_eligible_weight, is_eligible, eligible,
  get_validator, IsFiled, IsValidatorSet,
}
use vanargand.Consensus.Committee.{
  CommitteeMember, member_weight, candidate_of, remove_at, draw_seats, draw, is_member, find_weight,
  weight_of, sampled,
}
use vanargand.Consensus.Committee.Draw.{
  Distinct, IsPositive, get-member, remove_at-Distinct, draw_seats-stop, draw_seats-step,
  draw_seats-Distinct, draw_seats-length,
}

eligible-IsPositive : (set : ValidatorSet) → All IsPositive (map candidate_of (eligible set))
unfolding eligible is_eligible
eligible-IsPositive [] = tt
eligible-IsPositive ((a, r) ∷ set) = ground (arith, eligible-IsPositive set)

-- An account that the set does not file is no candidate.
eligible-absent :
    (set : ValidatorSet) (a : AccountId)
    → All IsFiled set
    → lookup a set ≡ none
    → is_member a (map candidate_of (eligible set)) ≡ false
unfolding eligible is_member lookup
eligible-absent [] a f h = refl
eligible-absent ((b, r) ∷ set) a f h = ground (arith, eligible-absent set a f.1)

pub eligible-Distinct :
    (set : ValidatorSet) → IsValidatorSet set → Distinct (map candidate_of (eligible set))
unfolding eligible
eligible-Distinct [] v = tt
eligible-Distinct ((a, r) ∷ set) ((n, d), (f, fs)) =
    ground (arith, eligible-Distinct set (d, fs), eligible-absent set a fs n)

-- Of two accounts of which only one is filed, the other's entry does not hide it.
lookup_ne :
    (a b : AccountId) (set : ValidatorSet) (s r : ValidatorRecord)
    → lookup b set ≡ none
    → lookup a set ≡ some s
    → lookup a ((b, r) ∷ set) ≡ some s
unfolding lookup
lookup_ne a b set s r n l = elim (Bool-cases (b == a)) [
  | inl t ↦ (let same = ap (λ k. lookup k set) ((==_iff b a).0 t) in ground (arith, same))
  | inr f ↦ ground arith
]

-- A weight that is found among the candidates is the weight of that validator, and positive.
eligible-find :
    (set : ValidatorSet) (a : AccountId) (w : Weight)
    → IsValidatorSet set
    → find_weight a (map candidate_of (eligible set)) ≡ some w
    → (r : ValidatorRecord) × (lookup a set ≡ some r) × (w ≡ validator_weight r) × (0 < w)
unfolding eligible is_eligible find_weight lookup
eligible-find [] a w v h = ground arith
eligible-find ((b, r) ∷ set) a w ((n, d), (f, fs)) h = elim (Bool-cases (is_eligible r)) [
  | inl t ↦ elim (Bool-cases (r.account == a)) [
    | inl s ↦ (r, ground arith, ground arith, ground arith)
    | inr u ↦
        let (s, l, e, p) = eligible-find set a w (d, fs) (ground arith) in (s, ground arith, e, p)
  ]
  | inr e ↦
      let (s, l, q, p) = eligible-find set a w (d, fs) (ground arith) in
      (s, ground (arith, lookup_ne a b set s r n l), q, p)
]

find_weight-absent :
    (xs : List CommitteeMember) (a : AccountId) → is_member a xs ≡ false → find_weight a xs ≡ none
unfolding is_member find_weight
find_weight-absent [] a h = refl
find_weight-absent (x ∷ xs) a h = ground (arith, find_weight-absent xs a)

remove_at-find :
    (xs : List CommitteeMember) (i : ℕ) (a : AccountId) (w : Weight)
    → Distinct xs
    → find_weight a (remove_at xs i) ≡ some w
    → find_weight a xs ≡ some w
unfolding remove_at find_weight
remove_at-find [] i a w d h = h
remove_at-find (x ∷ xs) zero a w d h = elim (Bool-cases (x.account == a)) [
  | inl t ↦
      let same = ap (λ k. is_member k xs) ((==_iff x.account a).0 t) in
      ground (arith, same, d.0, find_weight-absent xs a)
  | inr f ↦ ground arith
]
remove_at-find (x ∷ xs) (suc i) a w d h = ground (arith, remove_at-find xs i a w d.1)

-- A seat's weight is found under its account.
pub get-find_weight :
    (xs : List CommitteeMember) (i : ℕ) (m : CommitteeMember)
    → Distinct xs
    → get_elem? xs i ≡ some m
    → find_weight m.account xs ≡ some m.weight
unfolding find_weight is_member
get-find_weight [] i m d g = ground arith
get-find_weight (x ∷ xs) zero m d g = ground arith
get-find_weight (x ∷ xs) (suc i) m d g = ground (
  arith,
  get-find_weight xs i m d.1,
  get-member x.account xs i m d.0,
  get-find_weight xs i m d.1 g,
)

weights-candidates :
    (rs : List ValidatorRecord) → map member_weight (map candidate_of rs) ≡ map validator_weight rs
weights-candidates [] = refl
weights-candidates (r ∷ rs) = ap (λ ws. validator_weight r ∷ ws) (weights-candidates rs)

-- The draw starts from the whole weight of its candidates.
candidates-sum :
    (set : ValidatorSet) (total : Weight)
    → total_eligible_weight set ≡ some total
    → weight_sum (map member_weight (map candidate_of (eligible set)))
      ≡ some (sum_of member_weight (map candidate_of (eligible set)))
unfolding total_eligible_weight
candidates-sum set total h =
    let fused = ap weight_sum (weights-candidates (eligible set)) ∙ h in
    let (e, b) = weight_sum-eq (map member_weight (map candidate_of (eligible set))) total fused in
    fused ∙ ap some (e ∙ sum_of-map member_weight (λ x. x) (map candidate_of (eligible set)))

module _ (digests : SeedDigests) (seed : EpochSeed) where
  -- A weight that is found among the seats was found among the candidates.
  draw_seats-find :
      (seats round : ℕ) (left : Weight) (xs : List CommitteeMember) (a : AccountId) (w : Weight)
      → Distinct xs
      → find_weight a (draw_seats digests seed seats round left xs) ≡ some w
      → find_weight a xs ≡ some w
  unfolding find_weight draw_seats
  draw_seats-find zero round left xs a w d h = ground arith
  draw_seats-find (suc seats) round left xs a w d h =
      elim (Bool-cases ((length xs == 0) || (left == 0))) [
        | inl t ↦ ground (arith, draw_seats-stop digests seed (suc seats) round left xs t)
        | inr f ↦
            let (i, m, g, e) = draw_seats-step digests seed seats round left xs f in
            let after = unwrap_or (checked_sub left m.weight) 0 in
            let found = ap (find_weight a) (sym e) ∙ h in
            elim (Bool-cases (m.account == a)) [
              | inl s ↦
                  let same = ap (λ k. find_weight k xs) ((==_iff m.account a).0 s) in
                  ground (arith, same, found, get-find_weight xs i m d g)
              | inr n ↦ remove_at-find xs i a w d (
                  draw_seats-find seats (suc round) after (remove_at xs i) a w
                    (remove_at-Distinct xs i d) (ground (arith, found)))
            ]
      ]

  -- On a valid validator set whose eligible weight fits 128 bits, the draw fills 192 seats or seats
  -- every eligible validator if there are fewer, and seats nobody twice.
  pub draw-Distinct :
      (set : ValidatorSet) (total : Weight)
      → IsValidatorSet set
      → total_eligible_weight set ≡ some total
      → Distinct (draw digests seed set).members
        × (length (draw digests seed set).members ≡ min sampled (length (eligible set)))
  unfolding draw
  draw-Distinct set total v h =
      let candidates = map candidate_of (eligible set) in
      let seats = min sampled (length candidates) in
      let left = unwrap_or (weight_sum (map member_weight candidates)) 0 in
      let filled =
        draw_seats-length digests seed seats 0 candidates (eligible-IsPositive set) (omega arith) in
      (
        draw_seats-Distinct digests seed seats 0 left candidates (eligible-Distinct set v),
        rw (candidates-sum set total h) filled
            ∙ ap (min sampled) (length-map candidate_of (eligible set)),
      )

  -- Whoever sits in a committee that is drawn from a valid validator set is filed in the set, and
  -- its weight in the committee is that of its bond and is positive.
  pub draw-weight_of :
      (set : ValidatorSet) (a : AccountId) (w : Weight)
      → IsValidatorSet set
      → weight_of (draw digests seed set) a ≡ some w
      → (r : ValidatorRecord) × (get_validator a set ≡ some r) × (w ≡ validator_weight r) × (0 < w)
  unfolding draw weight_of get_validator
  draw-weight_of set a w v g =
      let candidates = map candidate_of (eligible set) in
      let left = unwrap_or (weight_sum (map member_weight candidates)) 0 in
      eligible-find set a w v (
        draw_seats-find (min sampled (length candidates)) 0 left candidates a w
          (eligible-Distinct set v) g)
