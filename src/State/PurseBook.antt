-- ===== src/State/PurseBook.antt =====
-- vanargand-state/src/purse_book.rs: where the ledger keeps its channels.
use vanargand.Common.{ℕ, Option, none, some, if◌then◌else◌, Result, ok, err, not, List, [], ◌∷◌}
use vanargand.Common.Map.{Map, lookup, contains, insert, remove}
use vanargand.Common.Map.Keys.{nat_key}
use vanargand.Types.Amount.{Amount}
use vanargand.Types.Tx.{Hash, AccountId, AssetId}
use vanargand.Types.Window.{ContestationWindow}
use vanargand.Bourse.Payword.{PayWordToken}
use vanargand.Bourse.Purse.{
  Purse, PurseId, PurseError, Settlement, is_party, settle_cooperative, settle,
}
use vanargand.Bourse.Purse

pub record Payout : Type 0 where
  pub purse : PurseId
  pub payer : AccountId
  pub payee : AccountId
  pub asset : Option AssetId
  pub settlement : Settlement

pub data PurseBookError : Type 0 where
  no_such_purse purse_exists : PurseId → PurseBookError
  not_a_party : AccountId → PurseBookError
  purse : PurseError → PurseBookError

pub record PurseBook : Type 0 where
  pub purses : Map PurseId Purse

abbrev pub new_purse_book : PurseBook
new_purse_book = record { purses = [] }

abbrev pub payout_of : PurseId → Purse → Settlement → Payout
payout_of id p settlement = record {
  purse = id;
  payer = p.payer;
  payee = p.payee;
  asset = p.asset;
  settlement = settlement;
}

-- `PurseBook::open`. A method that fails has written nothing.
unfoldable pub file : PurseBook → PurseId → Purse → Result PurseBookError PurseBook
file b id p =
    if contains id b.purses
    then err (purse_exists id)
    else ok (record { purses = insert id p b.purses })

unfoldable pub close_cooperative :
    PurseBook → PurseId → AccountId → Amount → Amount → Result PurseBookError (Payout × PurseBook)
close_cooperative b id caller to_payer to_payee = elim (lookup id b.purses) [
  | none ↦ err (no_such_purse id)
  | some p ↦
      if not (is_party p caller)
      then err (not_a_party caller)
      else elim (settle_cooperative p to_payer to_payee) [
        | err e ↦ err (purse e)
        | ok s ↦ ok (payout_of id p s, record { purses = remove id b.purses })
      ]
]

-- Every channel that settles at the height, in ascending order.
unfoldable pub ready : ℕ → Map PurseId Purse → List Payout
ready height [] = []
ready height ((id, p) ∷ m) = elim (settle p height) [
  | ok s ↦ payout_of id p s ∷ ready height m
  | err e ↦ ready height m
]

unfoldable pub drop_paid : List Payout → Map PurseId Purse → Map PurseId Purse
drop_paid [] m = m
drop_paid (payout ∷ rest) m = drop_paid rest (remove payout.purse m)

unfoldable pub settle_elapsed : PurseBook → ℕ → List Payout × PurseBook
settle_elapsed b height =
    let payouts = ready height b.purses in (payouts, record { purses = drop_paid payouts b.purses })

module _ (link : Hash → Hash) where
  unfoldable pub begin_unilateral :
      PurseBook
      → PurseId
      → AccountId
      → ℕ
      → Option PayWordToken
      → ContestationWindow
      → Result PurseBookError PurseBook
  begin_unilateral b id caller claimed_tranches token window = elim (lookup id b.purses) [
    | none ↦ err (no_such_purse id)
    | some p ↦ elim (Purse.begin_unilateral link p caller claimed_tranches token window) [
      | err e ↦ err (purse e)
      | ok p' ↦ ok (record { purses = insert id p' b.purses })
    ]
  ]

  unfoldable pub dispute : PurseBook → PurseId → ℕ → PayWordToken → Result PurseBookError PurseBook
  dispute b id disputed_tranches token = elim (lookup id b.purses) [
    | none ↦ err (no_such_purse id)
    | some p ↦ elim (Purse.dispute link p disputed_tranches token) [
      | err e ↦ err (purse e)
      | ok p' ↦ ok (record { purses = insert id p' b.purses })
    ]
  ]
