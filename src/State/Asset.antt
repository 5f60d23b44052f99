-- ===== src/State/Asset.antt =====
-- vanargand-state/src/asset.rs: who may issue a local asset, and its supply.
pub mod Laws
use vanargand.Common.{
  ℕ, Bool, true, false, Option, none, some, ◌==◌, ◌&&◌, if◌then◌else◌, Result, ok, err, ok_or,
  and_then, not, [],
}
use vanargand.Common.Map.{Map, lookup, contains, insert}
use vanargand.Common.Map.Keys.{nat_key, bytes_key}
use vanargand.Types.Amount.{Amount, checked_add, checked_sub, is_zero}
use vanargand.Types.Name.{Name}
use vanargand.Types.Tx.{AccountId, AssetId}

pub record AssetRecord : Type 0 where
  pub issuer : AccountId
  pub ticker : Name
  pub decimals : ℕ
  pub reissuable : Bool
  pub supply : Amount

pub data AssetError : Type 0 where
  no_such_asset : AssetId → AssetError
  ticker_taken : Name → AssetId → AssetError
  asset_exists : AssetId → AssetError
  not_the_issuer : AccountId → AccountId → AssetError
  not_reissuable : AssetId → AssetError
  zero_amount : AssetError
  supply_underflow : Amount → Amount → AssetError
  overflow : AssetError

pub record AssetRegistry : Type 0 where
  pub assets : Map AssetId AssetRecord
  pub tickers : Map Name AssetId

abbrev pub new_registry : AssetRegistry
new_registry = record { assets = []; tickers = [] }

-- Each of these writes only once nothing can fail any more, so that an error leaves the registry.
unfoldable pub create :
    AssetRegistry → AssetId → AccountId → Name → ℕ → Bool → Result AssetError AssetRegistry
create r id issuer ticker decimals reissuable =
    if contains id r.assets then err (asset_exists id) else elim (lookup ticker r.tickers) [
      | some held_by ↦ err (ticker_taken ticker held_by)
      | none ↦ ok (record {
        tickers = insert ticker id r.tickers;
        assets =
            insert id
              (record {
                issuer = issuer;
                ticker = ticker;
                decimals = decimals;
                reissuable = reissuable;
                supply = 0;
              })
              r.assets;
      })
    ]

unfoldable pub authorise_mint :
    AssetRegistry → AssetId → AccountId → Amount → Result AssetError AssetRegistry
authorise_mint r id caller amount =
    if is_zero amount then err zero_amount else elim (lookup id r.assets) [
      | none ↦ err (no_such_asset id)
      | some asset ↦
          if not (asset.issuer == caller)
          then err (not_the_issuer caller asset.issuer)
          else if not asset.reissuable && not (is_zero asset.supply)
          then err (not_reissuable id)
          else elim (checked_add asset.supply amount) [
            | none ↦ err overflow
            | some supply ↦
                ok (record r { assets = insert id (record asset { supply = supply }) r.assets })
          ]
    ]

unfoldable pub record_burn : AssetRegistry → AssetId → Amount → Result AssetError AssetRegistry
record_burn r id amount = if is_zero amount then err zero_amount else elim (lookup id r.assets) [
  | none ↦ err (no_such_asset id)
  | some asset ↦ elim (checked_sub asset.supply amount) [
    | none ↦ err (supply_underflow amount asset.supply)
    | some supply ↦ ok (record r { assets = insert id (record asset { supply = supply }) r.assets })
  ]
]
