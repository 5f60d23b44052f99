-- ===== src/Types/Tx/Grammar.antt =====
-- Which kinds may stand in a provisional block, and the structural checks of a body.
use vanargand.Common.{
  ℕ, ◌≡◌, Bool, true, false, List, [], ◌∷◌, ltb, ◌==◌, if◌then◌else◌, Result, ok, err, Done, ◌-◌,
  ◌⊎◌, ◌↔◌, arith, ◌||◌,
}
use vanargand.Common.Lists.{length, All}
use vanargand.Types.Amount.{is_zero}
use vanargand.Types.Nonce.{u32_bound}
use vanargand.Types.Tx.{
  TxKind, TxBody, transfer, nomad_set, device_add, device_revoke, name_commit, name_reveal,
  guardian_set, recovery_start, recovery_cancel, recovery_finalise, bond, unbond, purse_open,
  purse_close_cooperative, purse_close_unilateral, purse_dispute, asset_create, asset_mint,
  asset_burn, account_equivocation, validator_equivocation, open_equivocation,
}

-- The `&'static str` payload of an error that names a kind is the kind's discriminant here.
pub data TxError : Type 0 where
  unsupported_version : ℕ → TxError
  bad_signature wrong_device_key test_algorithm_on_live_chain : TxError
  zero_threshold : TxError
  threshold_above_guardians : ℕ → ℕ → TxError
  self_counterparty zero_amount evidence_about_evidence : TxError
  forbidden_in_provisional : ℕ → TxError
  different_chains different_accounts not_both_by_the_accused_device : TxError
  nonces_do_not_collide the_same_transaction_twice : TxError

abbrev pub tx_version : ℕ
tx_version = 1

unfoldable pub discriminant : TxKind → ℕ
discriminant (transfer _ _ _) = 1
discriminant (nomad_set _ _) = 2
discriminant (device_add _ _ _) = 3
discriminant (device_revoke _) = 4
discriminant (name_commit _) = 5
discriminant (name_reveal _ _) = 6
discriminant (guardian_set _ _) = 7
discriminant (recovery_start _ _) = 8
discriminant (recovery_cancel _) = 9
discriminant (recovery_finalise _) = 10
discriminant (bond _ _) = 11
discriminant (unbond _) = 12
discriminant (purse_open _ _ _ _ _ _) = 13
discriminant (purse_close_cooperative _ _ _ _) = 14
discriminant (purse_close_unilateral _ _ _) = 15
discriminant (purse_dispute _ _ _) = 16
discriminant (asset_create _ _ _) = 17
discriminant (asset_mint _ _ _) = 18
discriminant (asset_burn _ _) = 19
discriminant (account_equivocation _) = 20
discriminant (validator_equivocation _) = 21

unfoldable pub allowed_in_provisional : TxKind → Bool
allowed_in_provisional (transfer _ _ _) = true
allowed_in_provisional (purse_open _ _ _ _ _ _) = true
allowed_in_provisional (purse_close_cooperative _ _ _ _) = true
allowed_in_provisional (purse_close_unilateral _ _ _) = false
allowed_in_provisional (purse_dispute _ _ _) = false
allowed_in_provisional (nomad_set _ _) = false
allowed_in_provisional (device_add _ _ _) = false
allowed_in_provisional (device_revoke _) = false
allowed_in_provisional (guardian_set _ _) = false
allowed_in_provisional (recovery_start _ _) = false
allowed_in_provisional (recovery_cancel _) = false
allowed_in_provisional (recovery_finalise _) = false
allowed_in_provisional (bond _ _) = false
allowed_in_provisional (unbond _) = false
allowed_in_provisional (name_commit _) = false
allowed_in_provisional (name_reveal _ _) = false
allowed_in_provisional (asset_create _ _ _) = false
allowed_in_provisional (asset_mint _ _ _) = false
allowed_in_provisional (asset_burn _ _) = false
allowed_in_provisional (account_equivocation _) = false
allowed_in_provisional (validator_equivocation _) = false

unfoldable pub is_evidence : TxKind → Bool
is_evidence (account_equivocation _) = true
is_evidence (validator_equivocation _) = true
is_evidence _ = false

-- `u32::try_from(len).unwrap_or(u32::MAX)`
abbrev pub count_u32 : ℕ → ℕ
count_u32 n = if ltb n u32_bound then n else u32_bound - 1

check_kind : TxBody → TxKind → Result TxError Done
check_kind body (guardian_set guardians threshold) =
    if threshold == 0
    then err zero_threshold
    else if ltb (count_u32 (length guardians)) threshold
    then err (threshold_above_guardians threshold (count_u32 (length guardians)))
    else ok tt
check_kind body (purse_open counterparty _ _ _ _ _) =
    if counterparty == body.account then err self_counterparty else ok tt
check_kind body (transfer to _ amount) =
    if to == body.account
    then err self_counterparty
    else if is_zero amount
    then err zero_amount
    else ok tt
check_kind body (account_equivocation evidence) =
    let e = open_equivocation evidence in
    if is_evidence e.first.body.kind || is_evidence e.second.body.kind
    then err evidence_about_evidence
    else ok tt
check_kind body _ = ok tt

unfoldable pub check_self_consistent : TxBody → Result TxError Done
unfolding check_kind
check_self_consistent body =
    if body.version == tx_version
    then check_kind body body.kind
    else err (unsupported_version body.version)

unfoldable pub check_provisional_grammar : List TxBody → Result TxError Done
check_provisional_grammar [] = ok tt
check_provisional_grammar (body ∷ bodies) =
    if allowed_in_provisional body.kind
    then check_provisional_grammar bodies
    else err (forbidden_in_provisional (discriminant body.kind))

-- The kinds of the whitelist: a transfer, the opening of a channel and a cooperative closure.
abbrev pub IsOffline : TxKind → Type 0
IsOffline kind = (discriminant kind ≡ 1) ⊎ (discriminant kind ≡ 13) ⊎ (discriminant kind ≡ 14)

pub allowed_iff : (kind : TxKind) → (allowed_in_provisional kind ≡ true) ↔ IsOffline kind
unfolding allowed_in_provisional discriminant
allowed_iff (transfer _ _ _) = ground arith
allowed_iff _ = ground arith

-- A block of bodies passes the grammar of a partition exactly when each of them is a transfer, the
-- opening of a channel or a cooperative closure.
pub check_provisional_grammar_iff :
    (bodies : List TxBody)
    → (check_provisional_grammar bodies ≡ ok tt) ↔ All (λ b. IsOffline b.kind) bodies
unfolding check_provisional_grammar
check_provisional_grammar_iff [] = ground arith
check_provisional_grammar_iff (b ∷ bs) =
    ground (arith, allowed_iff b.kind, check_provisional_grammar_iff bs)
