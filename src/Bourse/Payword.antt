-- ===== src/Bourse/Payword.antt =====
-- vanargand-bourse/src/payword.rs: PayWord tokens, and the two ends of an off-chain payment. `link`
-- is the hash of a digest in the PayWord domain.
pub mod Verify
pub mod Payee
pub mod Channel
use vanargand.Common.{
  ℕ, ◌+◌, ◌-◌, Bool, true, false, Option, none, some, ltb, leb, ◌==◌, ◌||◌, if◌then◌else◌, Result,
  ok, err, Done, ok_or, map_err, and_then, not, min,
}
use vanargand.Types.Amount.{Amount, checked_mul, checked_sub}
use vanargand.Types.Nonce.{u32_bound}
use vanargand.Types.Tx.{Hash}
use vanargand.Crypto.Chain.{
  HashChain, ChainCursor, ChainError, new_cursor, max_chain_len, generate, root, chain_len, reveal,
  advance, would_advance,
}

abbrev pub max_tranches : ℕ
max_tranches = max_chain_len

pub record PayWordToken : Type 0 where
  pub index : ℕ
  pub link : Hash

pub data PayWordError : Type 0 where
  chain_too_long : ℕ → PayWordError
  exhausted : ℕ → ℕ → PayWordError
  bad_token : ℕ → PayWordError
  index_mismatch : ℕ → ℕ → PayWordError
  overflow : PayWordError

unfoldable pub value_of : ℕ → Amount → Result PayWordError Amount
value_of tranches tranche_value = ok_or (checked_mul tranche_value tranches) overflow

pub record PayWordPayer : Type 0 where
  pub chain : HashChain
  pub spent : ℕ
  pub tranche_value : Amount

pub record PayWordPayee : Type 0 where
  pub payee_root : Hash
  pub cursor : ChainCursor
  pub accepted : ℕ
  pub capacity : ℕ
  pub tranche_value : Amount
  pub best : Option PayWordToken

unfoldable pub capacity : PayWordPayer → ℕ
unfolding chain_len
capacity p = chain_len p.chain

unfoldable pub remaining : PayWordPayer → ℕ
unfolding capacity
remaining p = capacity p - p.spent

-- `PayWordPayer::spend`
unfoldable pub spend : PayWordPayer → ℕ → Result PayWordError (PayWordToken × PayWordPayer)
spend p tranches =
    if not (ltb (p.spent + tranches) u32_bound)
    then err overflow
    else if ltb (capacity p) (p.spent + tranches)
    then err (exhausted (capacity p) p.spent)
    else elim (reveal p.chain (p.spent + tranches)) [
      | none ↦ err (exhausted (capacity p) p.spent)
      | some l ↦
          ok (
            record { index = p.spent + tranches; link = l },
            record p { spent = p.spent + tranches },
          )
    ]

-- `PayWordPayer::latest`
unfoldable pub latest : PayWordPayer → Option PayWordToken
latest p = elim (reveal p.chain p.spent) [
  | none ↦ none
  | some l ↦ some (record { index = p.spent; link = l })
]

-- `PayWordPayee::new`
unfoldable pub new_payee : Hash → ℕ → Amount → PayWordPayee
new_payee root capacity tranche_value = record {
  payee_root = root;
  cursor = new_cursor root (min capacity max_tranches);
  accepted = 0;
  capacity = min capacity max_tranches;
  tranche_value = tranche_value;
  best = none;
}

-- `PayWordPayee::earned`
unfoldable pub earned : PayWordPayee → Result PayWordError Amount
unfolding value_of
earned p = value_of p.accepted p.tranche_value

module _ (link : Hash → Hash) where
  -- `PayWordPayer::open`
  unfoldable pub open_payer : Hash → ℕ → Amount → Result PayWordError PayWordPayer
  open_payer seed tranches tranche_value =
      if ltb max_tranches tranches
      then err (chain_too_long tranches)
      else elim (generate link seed tranches) [
        | err e ↦ err (chain_too_long tranches)
        | ok chain ↦ ok (record { chain = chain; spent = 0; tranche_value = tranche_value })
      ]

  unfoldable pub verify_against_root : Hash → PayWordToken → Result PayWordError Done
  verify_against_root root token =
      if (token.index == 0) || ltb max_tranches token.index
      then err (bad_token token.index)
      else elim (advance link (new_cursor root max_tranches) token.link) [
        | err e ↦ err (bad_token token.index)
        | ok (steps, cursor) ↦
            if not (steps == token.index) then err (index_mismatch token.index steps) else ok tt
      ]

  -- `PayWordPayee::accept`: the payee after the call, and what the token was worth. The value is
  -- computed last, so that the payee has moved even where it overflows.
  unfoldable pub accept : PayWordPayee → PayWordToken → Result PayWordError Amount × PayWordPayee
  accept p token =
      if (token.index == 0) || ltb p.capacity token.index
      then (err (bad_token token.index), p)
      else elim (would_advance link p.cursor token.link) [
        | err e ↦ (err (bad_token token.index), p)
        | ok steps ↦ elim (checked_sub token.index p.accepted) [
          | none ↦ (err (bad_token token.index), p)
          | some expected ↦
              if not (steps == expected)
              then (err (index_mismatch token.index steps), p)
              else elim (advance link p.cursor token.link) [
                | err e ↦ (err (bad_token token.index), p)
                | ok (moved, cursor') ↦ (
                  value_of steps p.tranche_value,
                  record p { cursor = cursor'; accepted = token.index; best = some token },
                )
              ]
        ]
      ]
