-- ===== src/Consensus/Committee/Draw.antt =====
-- The draw takes each validator at most once, by weight, and fills the seats.
use vanargand.Common.{
  ℕ, zero, suc, ◌+◌, ◌-◌, ◌%◌, ◌≤◌, ◌<◌, ◌≡◌, refl, ap, true, false, some, List, [], ◌∷◌, ◌==◌,
  unwrap_or, arith, Option-cases, Bool-cases, inl, inr, ◌||◌,
}
use vanargand.Common.Lists.{length, get_elem?, get-lt, sum_of, All}
use vanargand.Types.Amount.{checked_sub}
use vanargand.Types.Tx.{AccountId}
use vanargand.Consensus.Weight.{Weight}
use vanargand.Consensus.Seed.{SeedDigests, EpochSeed, draw_u128}
use vanargand.Consensus.Committee.{
  CommitteeMember, member_weight, pick_from, pick_by_cumulative_weight, remove_at, draw_seats,
  is_member, draw_label, saturating_add_u128,
}

-- No account sits twice.
abbrev pub Distinct : List CommitteeMember → Type 0
Distinct [] = Unit
Distinct (m ∷ ms) = (is_member m.account ms ≡ false) × Distinct ms

remove_at-member :
    (a : AccountId) (xs : List CommitteeMember) (i : ℕ)
    → is_member a xs ≡ false
    → is_member a (remove_at xs i) ≡ false
unfolding is_member remove_at
remove_at-member a [] i h = refl
remove_at-member a (x ∷ xs) zero h = ground arith
remove_at-member a (x ∷ xs) (suc i) h = ground (arith, remove_at-member a xs i)

pub get-member :
    (a : AccountId) (xs : List CommitteeMember) (i : ℕ) (m : CommitteeMember)
    → is_member a xs ≡ false
    → get_elem? xs i ≡ some m
    → (m.account == a) ≡ false
unfolding is_member
get-member a [] i m h g = ground arith
get-member a (x ∷ xs) zero m h g = ground arith
get-member a (x ∷ xs) (suc i) m h g = ground (arith, get-member a xs i m)

pub remove_at-Distinct :
    (xs : List CommitteeMember) (i : ℕ) → Distinct xs → Distinct (remove_at xs i)
unfolding remove_at
remove_at-Distinct [] i d = tt
remove_at-Distinct (x ∷ xs) zero d = d.1
remove_at-Distinct (x ∷ xs) (suc i) d =
    (remove_at-member x.account xs i d.0, remove_at-Distinct xs i d.1)

-- What was removed is not there any more.
remove_at-absent :
    (xs : List CommitteeMember) (i : ℕ) (m : CommitteeMember)
    → Distinct xs
    → get_elem? xs i ≡ some m
    → is_member m.account (remove_at xs i) ≡ false
unfolding is_member remove_at
remove_at-absent [] i m d g = ground arith
remove_at-absent (x ∷ xs) zero m d g = ground arith
remove_at-absent (x ∷ xs) (suc i) m d g =
    ground (arith, remove_at-absent xs i m d.1, get-member x.account xs i m d.0)

pub remove_at-sum :
    (xs : List CommitteeMember) (i : ℕ) (m : CommitteeMember)
    → get_elem? xs i ≡ some m
    → (sum_of member_weight (remove_at xs i) + m.weight ≡ sum_of member_weight xs)
      × (suc (length (remove_at xs i)) ≡ length xs)
unfolding remove_at
remove_at-sum [] i m g = ground arith
remove_at-sum (x ∷ xs) zero m g = ground arith
remove_at-sum (x ∷ xs) (suc i) m g = ground (arith, remove_at-sum xs i m g)

-- What is picked stands in the list.
pick_from-lt :
    (index : ℕ) (cumulative : Weight) (xs : List CommitteeMember) (point i : ℕ)
    → pick_from index cumulative xs point ≡ some i
    → i < index + length xs
unfolding pick_from
pick_from-lt index cumulative [] point i h = ground arith
pick_from-lt index cumulative (x ∷ xs) point i h =
    ground (arith, pick_from-lt (suc index) (saturating_add_u128 cumulative x.weight) xs point i)

pick-some :
    (xs : List CommitteeMember) (point : ℕ)
    → 0 < length xs
    → (i : ℕ) × (m : CommitteeMember) × (pick_by_cumulative_weight xs point ≡ some i)
      × (get_elem? xs i ≡ some m)
unfolding pick_by_cumulative_weight
pick-some xs point h = elim (Option-cases (pick_from 0 0 xs point)) [
  | inl n ↦
      let (m, g) = get-lt xs (length xs - 1) (omega arith) in (length xs - 1, m, ground arith, g)
  | inr (i, s) ↦
      let (m, g) = get-lt xs i (omega (arith, pick_from-lt 0 0 xs point i s)) in
      (i, m, ground arith, g)
]

abbrev pub IsPositive : CommitteeMember → Type 0
IsPositive m = 0 < m.weight

pub remove_at-All :
    (P : CommitteeMember → Type 0) (xs : List CommitteeMember) (i : ℕ)
    → All P xs
    → All P (remove_at xs i)
unfolding remove_at
remove_at-All P [] i h = tt
remove_at-All P (x ∷ xs) zero h = h.1
remove_at-All P (x ∷ xs) (suc i) h = (h.0, remove_at-All P xs i h.1)

sum-positive :
    (xs : List CommitteeMember) → All IsPositive xs → 0 < length xs → 0 < sum_of member_weight xs
sum-positive [] h l = l
sum-positive (x ∷ xs) h l = omega (arith, h.0)

module _ (digests : SeedDigests) (seed : EpochSeed) where
  pub draw_seats-stop :
      (seats round : ℕ) (w : Weight) (xs : List CommitteeMember)
      → ((length xs == 0) || (w == 0)) ≡ true
      → draw_seats digests seed seats round w xs ≡ []
  unfolding draw_seats
  draw_seats-stop zero round w xs h = refl
  draw_seats-stop (suc seats) round w xs h = ground arith

  -- A round of the draw takes one of the candidates out.
  pub draw_seats-step :
      (seats round : ℕ) (w : Weight) (xs : List CommitteeMember)
      → ((length xs == 0) || (w == 0)) ≡ false
      → (i : ℕ) × (m : CommitteeMember) × (get_elem? xs i ≡ some m)
        × (draw_seats digests seed (suc seats) round w xs
            ≡ m
              ∷ draw_seats digests seed seats
                  (suc round)
                  (unwrap_or (checked_sub w m.weight) 0)
                  (remove_at xs i))
  unfolding draw_seats
  draw_seats-step seats round w xs h =
      let (i, m, p, g) =
        pick-some xs (draw_u128 digests seed draw_label round % w) (ground arith) in
      (i, m, g, rw (h, p, g) refl)

  draw_seats-member :
      (seats round : ℕ) (w : Weight) (xs : List CommitteeMember) (a : AccountId)
      → is_member a xs ≡ false
      → is_member a (draw_seats digests seed seats round w xs) ≡ false
  unfolding is_member draw_seats
  draw_seats-member zero round w xs a h = refl
  draw_seats-member (suc seats) round w xs a h = elim (Bool-cases ((length xs == 0) || (w == 0))) [
    | inl t ↦ rw (draw_seats-stop (suc seats) round w xs t) refl
    | inr f ↦
        let (i, m, g, e) = draw_seats-step seats round w xs f in
        ground (
          arith,
          e,
          get-member a xs i m h g,
          draw_seats-member seats (suc round) (unwrap_or (checked_sub w m.weight) 0)
              (remove_at xs i) a (remove_at-member a xs i h),
        )
  ]

  pub draw_seats-Distinct :
      (seats round : ℕ) (w : Weight) (xs : List CommitteeMember)
      → Distinct xs
      → Distinct (draw_seats digests seed seats round w xs)
  unfolding draw_seats
  draw_seats-Distinct zero round w xs d = tt
  draw_seats-Distinct (suc seats) round w xs d = elim (Bool-cases ((length xs == 0) || (w == 0))) [
    | inl t ↦ rw (draw_seats-stop (suc seats) round w xs t) tt
    | inr f ↦
        let (i, m, g, e) = draw_seats-step seats round w xs f in
        let left = unwrap_or (checked_sub w m.weight) 0 in
        rw e (
          draw_seats-member seats (suc round) left (remove_at xs i) m.account
              (remove_at-absent xs i m d g),
          draw_seats-Distinct seats (suc round) left (remove_at xs i) (remove_at-Distinct xs i d),
        )
  ]

  -- While there are candidates with weight, every seat is filled.
  pub draw_seats-length :
      (seats round : ℕ) (xs : List CommitteeMember)
      → All IsPositive xs
      → seats ≤ length xs
      → length (draw_seats digests seed seats round (sum_of member_weight xs) xs) ≡ seats
  unfolding draw_seats
  draw_seats-length zero round xs h l = refl
  draw_seats-length (suc seats) round xs h l =
      let (i, m, g, e) =
        draw_seats-step seats round (sum_of member_weight xs) xs
          (ground (arith, sum-positive xs h)) in
      let (s, k) = remove_at-sum xs i m g in
      let left : unwrap_or (checked_sub (sum_of member_weight xs) m.weight) 0
          ≡ sum_of member_weight (remove_at xs i) =
        ground arith in
      rw (e, left)
        (ap suc (
          draw_seats-length seats (suc round) (remove_at xs i) (remove_at-All IsPositive xs i h)
            (omega arith)))
