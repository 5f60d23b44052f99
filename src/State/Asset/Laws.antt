-- ===== src/State/Asset/Laws.antt =====
-- Issuance: a ticker names one asset, only the issuer mints, and a closed issue is minted once.
use vanargand.Common.{
  ℕ, ◌+◌, ◌-◌, ◌≤◌, ◌<◌, ◌≡◌, ◌≢◌, Bool, true, false, none, some, arith, ◌==◌, ok, err,
  Option-cases, inl, inr, ◌⊎◌, Bool-cases,
}
use vanargand.Common.Map.{lookup, insert}
use vanargand.Common.Map.Keys.{nat_key, bytes_key, bytes_same, bytes_same_iff}
use vanargand.Common.Map.Laws.{lookup-insert}
use vanargand.Types.Amount.{Amount, u64_bound}
use vanargand.Types.Name.{Name}
use vanargand.Types.Tx.{AccountId, AssetId}
use vanargand.State.Asset.{
  AssetRecord, AssetRegistry, create, authorise_mint, record_burn, not_reissuable,
}

-- Every ticker that is reserved names an asset that carries it, and every asset's ticker is
-- reserved for it.
pub record IsConsistent (r : AssetRegistry) : Type 0 where
  pub ticker_to_asset :
      (t : Name) (id : AssetId)
      → lookup t r.tickers ≡ some id
      → (a : AssetRecord) × (lookup id r.assets ≡ some a) × (a.ticker ≡ t)
  pub asset_to_ticker :
      (id : AssetId) (a : AssetRecord)
      → lookup id r.assets ≡ some a
      → lookup a.ticker r.tickers ≡ some id

-- A mint that is authorised is by the issuer, of a positive amount, of an asset that may be issued
-- again or has no supply; it adds the amount to that asset's supply, within 64 bits, and changes no
-- other asset and no ticker.
pub authorise_mint-ok :
    (r r' : AssetRegistry) (id other : AssetId) (caller : AccountId) (amount : Amount)
    → authorise_mint r id caller amount ≡ ok r'
    → (a : AssetRecord) × (lookup id r.assets ≡ some a)
      × (a.issuer ≡ caller)
      × (0 < amount)
      × ((a.reissuable ≡ true) ⊎ (a.supply ≡ 0))
      × (a.supply + amount < u64_bound)
      × (lookup id r'.assets ≡ some (record a { supply = a.supply + amount }))
      × (other ≢ id → lookup other r'.assets ≡ lookup other r.assets)
      × (r'.tickers ≡ r.tickers)
unfolding authorise_mint
authorise_mint-ok r r' id other caller amount h = elim (Option-cases (lookup id r.assets)) [
  | inl unknown ↦ absurd (ground (arith, unknown))
  | inr (a, found) ↦ (
    a,
    found,
    ground (arith, found),
    ground (arith, found),
    ground (arith, found),
    ground (arith, found),
    ground (arith, found, lookup-insert id id (record a { supply = a.supply + amount }) r.assets),
    λ ne.
        ground
          (arith, found, lookup-insert id other (record a { supply = a.supply + amount }) r.assets),
    ground (arith, found),
  )
]

-- Once an asset created with issuance closed has a supply, no further mint of it is authorised.
pub authorise_mint_closed :
    (r : AssetRegistry) (id : AssetId) (caller : AccountId) (amount : Amount) (a : AssetRecord)
    → lookup id r.assets ≡ some a
    → a.reissuable ≡ false
    → 0 < a.supply
    → 0 < amount
    → a.issuer ≡ caller
    → authorise_mint r id caller amount ≡ err (not_reissuable id)
unfolding authorise_mint
authorise_mint_closed r id caller amount a found closed supplied pos issuer = ground arith

-- A burn takes its positive amount, which the supply covers, from the one asset's supply.
pub record_burn-ok :
    (r r' : AssetRegistry) (id other : AssetId) (amount : Amount)
    → record_burn r id amount ≡ ok r'
    → (a : AssetRecord) × (lookup id r.assets ≡ some a)
      × (0 < amount)
      × (amount ≤ a.supply)
      × (lookup id r'.assets ≡ some (record a { supply = a.supply - amount }))
      × (other ≢ id → lookup other r'.assets ≡ lookup other r.assets)
      × (r'.tickers ≡ r.tickers)
unfolding record_burn
record_burn-ok r r' id other amount h = elim (Option-cases (lookup id r.assets)) [
  | inl unknown ↦ absurd (ground (arith, unknown))
  | inr (a, found) ↦ (
    a,
    found,
    ground (arith, found),
    ground (arith, found),
    ground (arith, found, lookup-insert id id (record a { supply = a.supply - amount }) r.assets),
    λ ne.
        ground
          (arith, found, lookup-insert id other (record a { supply = a.supply - amount }) r.assets),
    ground (arith, found),
  )
]

module _ (r : AssetRegistry) (id : AssetId) (a : AssetRecord) (c : IsConsistent r) where
  -- The registry with a new asset under a free identifier and a free ticker.
  abbrev added : AssetRegistry
  added = record { tickers = insert a.ticker id r.tickers; assets = insert id a r.assets }

  added_ticker :
      lookup id r.assets ≡ none
      → (t : Name) (j : AssetId) → lookup t added.tickers ≡ some j
      → (b : AssetRecord) × (lookup j added.assets ≡ some b) × (b.ticker ≡ t)
  added_ticker unused t j e = elim (Bool-cases (bytes_same a.ticker t)) [
    | inl same ↦ (
      a,
      ground (arith, same, lookup-insert a.ticker t id r.tickers, lookup-insert id j a r.assets),
      ground (arith, same, bytes_same_iff a.ticker t),
    )
    | inr differs ↦
        let old : lookup t r.tickers ≡ some j =
          ground (arith, differs, lookup-insert a.ticker t id r.tickers) in
        let (b, found, named) = c.ticker_to_asset t j old in
        (b, ground (arith, found, unused, lookup-insert id j a r.assets), named)
  ]

  added_asset :
      lookup a.ticker r.tickers ≡ none
      → (j : AssetId) (b : AssetRecord) → lookup j added.assets ≡ some b
      → lookup b.ticker added.tickers ≡ some j
  added_asset free j b e = elim (Bool-cases (id == j)) [
    | inl same ↦ ground (
      arith,
      same,
      lookup-insert id j a r.assets,
      lookup-insert a.ticker b.ticker id r.tickers,
      bytes_same_iff a.ticker b.ticker,
    )
    | inr differs ↦
        let old : lookup j r.assets ≡ some b =
          ground (arith, differs, lookup-insert id j a r.assets) in
        ground (
          arith,
          free,
          c.asset_to_ticker j b old,
          lookup-insert a.ticker b.ticker id r.tickers,
          bytes_same_iff a.ticker b.ticker,
        )
  ]

-- Creating an asset keeps tickers and assets in correspondence: it refuses an identifier that is in
-- use and a ticker that is held.
pub create-IsConsistent :
    (r r' : AssetRegistry) (id : AssetId) (issuer : AccountId) (ticker : Name) (decimals : ℕ)
    (reissuable : Bool)
    → IsConsistent r
    → create r id issuer ticker decimals reissuable ≡ ok r'
    → IsConsistent r'
unfolding create
create-IsConsistent r r' id issuer ticker decimals reissuable c h =
    let fresh : AssetRecord = record {
      issuer = issuer;
      ticker = ticker;
      decimals = decimals;
      reissuable = reissuable;
      supply = 0;
    } in
    elim (Option-cases (lookup id r.assets)) [
      | inr (old, used) ↦ absurd (ground (arith, used))
      | inl unused ↦ elim (Option-cases (lookup ticker r.tickers)) [
        | inr (held, taken) ↦ absurd (ground (arith, unused, taken))
        | inl free ↦
            let new : r' ≡ added r id fresh c = ground (arith, unused, free) in
            rw new (record {
              ticker_to_asset = added_ticker r id fresh c unused;
              asset_to_ticker = added_asset r id fresh c free;
            })
      ]
    ]
