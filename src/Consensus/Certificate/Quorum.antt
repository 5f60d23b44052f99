-- ===== src/Consensus/Certificate/Quorum.antt =====
-- Two quorums of one committee share voters, who signed both blocks.
use vanargand.Common.{
  ℕ, suc, ◌+◌, ◌≤◌, ◌<◌, ◌≡◌, refl, sym, ap, ◌∙◌, Bool, true, false, Option, some, List, [], ◌∷◌,
  arith, Option-cases, Bool-cases, Result-cases, inl, inr, ◌==◌, ==_iff, ◌||◌, ◌&&◌, if◌then◌else◌,
  ok,
}
use vanargand.Common.Lists.{sum_of, All}
use vanargand.Common.Map.{Set, contains, lookup}
use vanargand.Common.Map.Keys.{nat_key}
use vanargand.Common.Map.Laws.{lookup-insert}
use vanargand.Types.Tx.{Hash, AccountId, Signature, Crypto}
use vanargand.Consensus.Weight.{Weight}
use vanargand.Consensus.Validator.{ValidatorRecord, ValidatorSet, get_validator}
use vanargand.Consensus.Committee.{
  CommitteeMember, Committee, member_weight, is_member, find_weight, weight_of,
}
use vanargand.Consensus.Committee.Duty.{IsWeighed}
use vanargand.Consensus.Certificate.{Vote, account_set, is_unordered, check_vote, verify_votes}

-- Whether an account is among the voters.
unfoldable pub voted : List Vote → AccountId → Bool
voted [] a = false
voted (v ∷ vs) a = (v.member == a) || voted vs a

-- The weight of those members whose account passes a test.
unfoldable pub weight_where : (AccountId → Bool) → List CommitteeMember → Weight
weight_where f [] = 0
weight_where f (m ∷ ms) = (if f m.account then m.weight else 0) + weight_where f ms

voted-cons :
    (v : Vote) (vs : List Vote) (a : AccountId) → voted vs a ≡ true → voted (v ∷ vs) a ≡ true
unfolding voted
voted-cons v vs a h = ground arith

account_set-member :
    (a : AccountId) (ms : List CommitteeMember) → contains a (account_set ms) ≡ is_member a ms
unfolding account_set is_member lookup
account_set-member a [] = refl
account_set-member a (m ∷ ms) =
    ground (arith, lookup-insert m.account a tt (account_set ms), account_set-member a ms)

pub weight_where-both :
    (f g : AccountId → Bool) (ms : List CommitteeMember)
    → weight_where f ms + weight_where g ms
      ≤ sum_of member_weight ms + weight_where (λ a. f a && g a) ms
unfolding weight_where
weight_where-both f g [] = omega arith
weight_where-both f g (m ∷ ms) = ground (arith, weight_where-both f g ms)

weight_where_mono :
    (f g : AccountId → Bool) (ms : List CommitteeMember)
    → ((a : AccountId) → f a ≡ true → g a ≡ true)
    → weight_where f ms ≤ weight_where g ms
unfolding weight_where
weight_where_mono f g [] h = omega arith
weight_where_mono f g (m ∷ ms) h = ground (arith, weight_where_mono f g ms h, h m.account)

-- A positive weight belongs to somebody.
pub weight_where-some :
    (f : AccountId → Bool) (ms : List CommitteeMember)
    → 0 < weight_where f ms
    → (a : AccountId) × (f a ≡ true)
unfolding weight_where
weight_where-some f [] h = ground arith
weight_where-some f (m ∷ ms) h = elim (Bool-cases (f m.account)) [
  | inl t ↦ (m.account, t)
  | inr n ↦ weight_where-some f ms (ground arith)
]

-- One more voter adds at least its weight.
weight_where-cons :
    (members ms : List CommitteeMember) (v : Vote) (vs : List Vote) (w : Weight)
    → voted vs v.member ≡ false
    → All (IsWeighed members) ms
    → is_member v.member ms ≡ true
    → find_weight v.member members ≡ some w
    → w + weight_where (voted vs) ms ≤ weight_where (voted (v ∷ vs)) ms
unfolding weight_where is_member voted
weight_where-cons members [] v vs w n h i f = ground arith
weight_where-cons members (m ∷ ms) v vs w n h i f = elim (Bool-cases (m.account == v.member)) [
  | inl t ↦
      let same = (==_iff m.account v.member).0 t in
      let found = ap (λ a. find_weight a members) same in
      let fresh = ap (voted vs) same in
      ground (
        arith,
        found,
        fresh,
        h.0,
        weight_where_mono (voted vs) (voted (v ∷ vs)) ms (voted-cons v vs),
      )
  | inr u ↦ ground (arith, weight_where-cons members ms v vs w n h.1)
]

module _ (crypto : Crypto) (c : Committee) (validators : ValidatorSet) (allow_test : Bool) where
  check_vote-ok :
      (duty : List CommitteeMember) (digest : Hash) (v : Vote) (w : Weight)
      → check_vote crypto c validators allow_test (account_set duty) digest v ≡ ok w
      → (r : ValidatorRecord) × (get_validator v.member validators ≡ some r)
        × (crypto.verify_signature r.key digest v.signature ≡ true)
        × (is_member v.member duty ≡ true)
        × (find_weight v.member c.members ≡ some w)
  unfolding check_vote
  check_vote-ok duty digest v w h = elim (Option-cases (get_validator v.member validators)) [
    | inl n ↦ ground (arith, account_set-member v.member duty)
    | inr (r, e) ↦ elim (Option-cases (weight_of c v.member)) [
      | inl n ↦ ground (arith, account_set-member v.member duty)
      | inr (x, f) ↦
          (r, e, ground arith, ground (arith, account_set-member v.member duty), ground arith)
    ]
  ]

  -- What an accepted vote leaves for the loop to do.
  verify_votes-step :
      (duty : Set AccountId) (digest : Hash) (index : ℕ) (previous : Option AccountId)
      (signed : Weight) (v : Vote) (vs : List Vote) (w : Weight)
      → verify_votes crypto c validators allow_test duty digest index previous signed (v ∷ vs)
        ≡ ok w
      → (x : Weight) × (check_vote crypto c validators allow_test duty digest v ≡ ok x)
        × (is_unordered previous v.member ≡ false)
        × (verify_votes crypto c validators allow_test duty digest
              (suc index)
              (some v.member)
              (signed + x)
              vs
            ≡ ok w)
  unfolding verify_votes
  verify_votes-step duty digest index previous signed v vs w h =
      elim (Result-cases (check_vote crypto c validators allow_test duty digest v)) [
        | inl (x, e) ↦ (x, e, ground arith, ground arith)
        | inr (x, e) ↦ ground arith
      ]

  -- Nobody votes again after a later account has voted.
  verify_votes-fresh :
      (duty : Set AccountId) (digest : Hash) (index last a : ℕ) (signed : Weight) (vs : List Vote)
      (w : Weight)
      → verify_votes crypto c validators allow_test duty digest index (some last) signed vs ≡ ok w
      → a ≤ last
      → voted vs a ≡ false
  unfolding voted is_unordered
  verify_votes-fresh duty digest index last a signed [] w h l = refl
  verify_votes-fresh duty digest index last a signed (v ∷ vs) w h l =
      let (x, e, u, r) = verify_votes-step duty digest index (some last) signed v vs w h in
      ground (arith, verify_votes-fresh duty digest (suc index) v.member a (signed + x) vs w r)

  -- The weight of an accepted run of votes is at most that of the members on duty who voted.
  pub verify_votes-weight :
      (duty : List CommitteeMember) (digest : Hash) (index : ℕ) (previous : Option AccountId)
      (signed : Weight) (vs : List Vote) (w : Weight)
      → All (IsWeighed c.members) duty
      → verify_votes crypto c validators allow_test
          (account_set duty)
          digest
          index
          previous
          signed
          vs
        ≡ ok w
      → w ≤ signed + weight_where (voted vs) duty
  unfolding verify_votes
  verify_votes-weight duty digest index previous signed [] w d h = ground arith
  verify_votes-weight duty digest index previous signed (v ∷ vs) w d h =
      let (x, e, u, r) =
        verify_votes-step (account_set duty) digest index previous signed v vs w h in
      let (validator, g, s, m, f) = check_vote-ok duty digest v x e in
      let fresh =
        verify_votes-fresh (account_set duty) digest (suc index) v.member v.member (signed + x) vs w
          r (omega arith) in
      omega (
        arith,
        verify_votes-weight duty digest (suc index) (some v.member) (signed + x) vs w d r,
        weight_where-cons c.members duty v vs x fresh d m f,
      )

  -- Whoever voted in an accepted run signed the block with the key that the set files.
  pub verify_votes-signed :
      (duty : List CommitteeMember) (digest : Hash) (index : ℕ) (previous : Option AccountId)
      (signed : Weight) (vs : List Vote) (w : Weight) (a : AccountId)
      → verify_votes crypto c validators allow_test
          (account_set duty)
          digest
          index
          previous
          signed
          vs
        ≡ ok w
      → voted vs a ≡ true
      → (r : ValidatorRecord) × (signature : Signature) × (get_validator a validators ≡ some r)
        × (crypto.verify_signature r.key digest signature ≡ true)
  unfolding voted
  verify_votes-signed duty digest index previous signed [] w a h t = ground arith
  verify_votes-signed duty digest index previous signed (v ∷ vs) w a h t =
      let (x, e, u, r) =
        verify_votes-step (account_set duty) digest index previous signed v vs w h in
      elim (Bool-cases (v.member == a)) [
        | inl s ↦
            let (validator, g, sig, m, f) = check_vote-ok duty digest v x e in
            let same = ap (λ k. get_validator k validators) ((==_iff v.member a).0 s) in
            (validator, v.signature, sym same ∙ g, sig)
        | inr n ↦
            verify_votes-signed duty digest (suc index) (some v.member) (signed + x) vs w a r
              (ground arith)
      ]
