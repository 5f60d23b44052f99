-- ===== src/Bourse/Payword/Channel.antt =====
-- A payment over a channel: the payer spends tranches and the payee accepts the token.
use vanargand.Common.{ℕ, ◌+◌, ◌-◌, ◌*◌, ◌≤◌, ◌<◌, ◌≡◌, ◌≢◌, refl, ok, some, arith}
use vanargand.Common.Lists.{get_elem?}
use vanargand.Types.Amount.{u64_bound}
use vanargand.Types.Tx.{Hash}
use vanargand.Crypto.Chain.{ChainCursor, advance, would_advance, iterate, build, chain_len, reveal}
use vanargand.Crypto.Chain.Walk.{advance_sound, advance_complete}
use vanargand.Crypto.Chain.Links.{length-build, build_links, build_steps}
use vanargand.Bourse.Payword.{
  PayWordToken, PayWordPayer, PayWordPayee, max_tranches, value_of, capacity, spend, accept,
}

module _ (link : Hash → Hash) (seed : Hash) (len : ℕ) where
  -- The links of the chain differ pairwise, as those of a hash without collisions do.
  abbrev pub Distinct : Type 0
  Distinct =
      (i j : ℕ)
      → i < j
      → j ≤ len
      → get_elem? (build link len seed) i ≢ get_elem? (build link len seed) j

  -- The payer holds the chain, and the payee is committed to the last link that was spent.
  pub record Synced (payer : PayWordPayer) (payee : PayWordPayee) : Type 0 where
    pub holds : payer.chain.links ≡ build link len seed
    pub short : len ≤ max_tranches
    pub in_step : payer.spent ≡ payee.accepted
    pub cap : payee.capacity ≡ len
    pub walks : payee.cursor.max_steps ≡ len
    pub price : payer.tranche_value ≡ payee.tranche_value
    pub last : get_elem? (build link len seed) payee.accepted ≡ some payee.cursor.committed

  -- The walk from the link that is spent next meets the committed link after the tranches spent.
  advance_exact :
      (payee : PayWordPayee) (n : ℕ) (l : Hash)
      → Distinct
      → get_elem? (build link len seed) payee.accepted ≡ some payee.cursor.committed
      → payee.cursor.max_steps ≡ len
      → 0 < n
      → payee.accepted + n ≤ len
      → get_elem? (build link len seed) (payee.accepted + n) ≡ some l
      → (cursor' : ChainCursor) × (advance link payee.cursor l ≡ ok (n, cursor'))
        × (cursor'.committed ≡ l)
        × (cursor'.max_steps ≡ len)
  advance_exact payee n l distinct last walks pos fits at =
      let whole = build_steps link len payee.accepted n seed l at fits in
      let here : iterate link n l ≡ payee.cursor.committed = ground (arith, whole, last) in
      let (steps, cursor', found, le) =
        advance_complete link payee.cursor l n pos (omega arith) here in
      let (pos', small, here', before, to, keeps) =
        advance_sound link payee.cursor l steps cursor' found in
      let index : payee.accepted + n ≡ payee.accepted + (n - steps) + steps = omega arith in
      let near =
        build_steps link len (payee.accepted + (n - steps)) steps seed l (rw index at at)
          (omega arith) in
      let exact : steps ≡ n =
        ground (arith, near, here', last, distinct payee.accepted (payee.accepted + (n - steps))) in
      (cursor', rw exact at found, to, omega arith)

  -- Over a chain whose links differ pairwise, in step and with tranches left, a payment of any
  -- positive number of tranches whose value fits 64 bits succeeds on both sides: the payee accepts
  -- the payer's token, is paid that many tranches, and the two are in step again.
  pub spend-accept :
      (payer : PayWordPayer) (payee : PayWordPayee) (n : ℕ)
      → Distinct
      → Synced payer payee
      → 0 < n
      → payer.spent + n ≤ len
      → payer.tranche_value * n < u64_bound
      → (token : PayWordToken) × (payer' : PayWordPayer) × (payee' : PayWordPayee) × (spend payer n
          ≡ ok (token, payer'))
        × (accept link payee token ≡ (ok (payer.tranche_value * n), payee'))
        × (payer'.spent ≡ payer.spent + n)
        × Synced payer' payee'
  unfolding spend accept would_advance value_of capacity chain_len reveal
  spend-accept payer payee n distinct s pos fits value =
      let (l, at, _) = build_links link len (payer.spent + n) seed fits in
      let at' : get_elem? (build link len seed) (payee.accepted + n) ≡ some l =
        rw (← s.in_step) at in
      let (cursor', found, to, max) =
        advance_exact payee n l distinct s.last s.walks pos (omega (arith, s.in_step)) at' in
      let token : PayWordToken = record { index = payer.spent + n; link = l } in
      let payer' : PayWordPayer = record payer { spent = payer.spent + n } in
      let payee' : PayWordPayee = record payee {
        cursor = cursor';
        accepted = payer.spent + n;
        best = some token;
      } in
      (
        token,
        payer',
        payee',
        ground (arith, s.holds, s.short, length-build link len seed, at),
        ground (arith, s.in_step, s.cap, s.price, found),
        refl,
        record {
          holds = s.holds;
          short = s.short;
          in_step = refl;
          cap = s.cap;
          walks = max;
          price = s.price;
          last = ground (arith, at, to);
        },
      )
