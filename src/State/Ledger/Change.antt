-- ===== src/State/Ledger/Change.antt =====
-- The changes that ledger.rs makes to one account.
use vanargand.Common.{
  ℕ, Bool, false, Option, none, some, [], ◌∷◌, ltb, ◌==◌, ◌||◌, if◌then◌else◌, Result, ok, err,
  ok_or, bind,
}
use vanargand.Common.Map.{Map, Set, lookup, contains, insert, remove}
use vanargand.Common.Map.Keys.{nat_key}
use vanargand.Types.Amount.{Amount, checked_add, checked_sub, is_zero}
use vanargand.Types.Nonce.{Lane, Nonce, lane_next, next_sequence, consume}
use vanargand.Types.Tx.{AccountId, AssetId, DeviceId, VerifyingKey}
use vanargand.State.Account.{Account, Device, balance, credit, debit, allocated_nomad}
use vanargand.State.Ledger.{
  StateError, bad_nonce, insufficient_balance, nomad_over_allocated, lane_already_used,
  device_was_revoked, device_already_exists, no_such_device, overflow,
}

abbrev Change : Type 0
Change = Account → Result StateError Account

-- The debit of `charge_fee`, `purse_open`, `asset_burn` and `transfer`.
unfoldable pub take_balance : Option AssetId → Amount → Account → Result StateError Account
take_balance asset amount a =
    ok_or (debit a asset amount) (insufficient_balance asset amount (balance a asset))

-- `nomad_set`
unfoldable pub set_nomad : Amount → Amount → Account → Result StateError Account
set_nomad credit margin a = elim (allocated_nomad a) [
  | none ↦ err overflow
  | some allocated ↦
      if ltb credit allocated
      then err (nomad_over_allocated allocated credit)
      else ok (record a { nomad_credit = credit; nomad_margin = margin })
]

lane_taken : Lane → Map DeviceId Device → Bool
lane_taken lane [] = false
lane_taken lane ((id, d) ∷ m) = (d.lane == lane) || lane_taken lane m

-- `device_add`, with the identifier of the key.
unfoldable pub add_device :
    DeviceId → VerifyingKey → Lane → Amount → Account → Result StateError Account
unfolding lane_taken
add_device device_id key lane nomad_share a =
    if contains device_id a.revoked_devices
    then err (device_was_revoked device_id)
    else if contains device_id a.devices
    then err (device_already_exists device_id)
    else if lane_taken lane a.devices
    then err (lane_already_used lane)
    else if ltb lane a.next_lane
    then err (lane_already_used lane)
    else elim (bind (allocated_nomad a) λ total. checked_add total nomad_share) [
      | none ↦ err overflow
      | some allocated ↦
          if ltb a.nomad_credit allocated
          then err (nomad_over_allocated allocated a.nomad_credit)
          else elim (lane_next lane) [
            | none ↦ err overflow
            | some next ↦ ok (record a {
              devices =
                  insert device_id
                    (record { key = key; lane = lane; nomad_share = nomad_share; nomad_spent = 0 })
                    a.devices;
              next_lane = next;
            })
          ]
    ]

-- `device_revoke`
unfoldable pub revoke_device : DeviceId → Account → Result StateError Account
revoke_device device a =
    if contains device a.devices
    then ok (record a {
      devices = remove device a.devices;
      revoked_devices = insert device tt a.revoked_devices;
    })
    else err (no_such_device device)

-- `bond` and `unbond`
unfoldable pub bond_stake : Amount → Account → Result StateError Account
bond_stake amount a = elim (debit a none amount) [
  | none ↦ err (insufficient_balance none amount (balance a none))
  | some a' ↦ elim (checked_add a'.bonded amount) [
    | none ↦ err overflow
    | some bonded ↦ ok (record a' { bonded = bonded })
  ]
]

unfoldable pub unbond_stake : Amount → Account → Result StateError Account
unbond_stake amount a = elim (checked_sub a.bonded amount) [
  | none ↦ err (insufficient_balance none amount a.bonded)
  | some bonded ↦ ok_or (credit (record a { bonded = bonded }) none amount) overflow
]

unfoldable pub set_guardians : Set AccountId → ℕ → Account → Result StateError Account
set_guardians guardians threshold a =
    ok (record a { guardians = guardians; guardian_threshold = threshold })

revoke_all : Map DeviceId Device → Set DeviceId → Set DeviceId
revoke_all [] revoked = revoked
revoke_all ((id, d) ∷ m) revoked = revoke_all m (insert id tt revoked)

-- The second half of `recovery_finalise`: every device is displaced and revoked.
unfoldable pub recover : DeviceId → VerifyingKey → Account → Result StateError Account
unfolding revoke_all
recover device_id new_root_key a = elim (lane_next a.next_lane) [
  | none ↦ err overflow
  | some next ↦ ok (record a {
    devices =
        insert device_id
          (record { key = new_root_key; lane = a.next_lane; nomad_share = 0; nomad_spent = 0 }) [];
    revoked_devices = revoke_all a.devices a.revoked_devices;
    next_lane = next;
    nomad_credit = 0;
  })
]

-- What the two punishments take.
unfoldable pub clear_margin : Account → Result StateError Account
clear_margin a = ok (record a { nomad_margin = 0 })

unfoldable pub clear_bond : Account → Result StateError Account
clear_bond a = ok (record a { bonded = 0 })

-- The end of `apply_in_place`: the nonce, and the offline credit that was consumed.
unfoldable pub consume_nonce : Lane → Nonce → Account → Result StateError Account
consume_nonce lane nonce a =
    let (lanes, taken) = consume a.lanes nonce in
    if taken
    then ok (record a { lanes = lanes })
    else err (bad_nonce (next_sequence a.lanes lane) nonce.sequence)

unfoldable pub spend_nomad : DeviceId → Amount → Account → Result StateError Account
spend_nomad device_id consumed a =
    if is_zero consumed then ok a else elim (lookup device_id a.devices) [
      | none ↦ ok a
      | some d ↦ elim (checked_add d.nomad_spent consumed) [
        | none ↦ err overflow
        | some spent ↦
            ok
              (record a { devices = insert device_id (record d { nomad_spent = spent }) a.devices })
      ]
    ]
