-- ===== src/Types/Codec/Varint.antt =====
-- What is written is read back.
use native.Mathlib.Nat.{
  mod-add-div', add-mul, mul_assoc, mul_comm, mod-eq_of_lt, mul-div_left, pow-suc, one-le-pow,
}
use vanargand.Common.{
  ℕ, zero, suc, ◌+◌, ◌*◌, ◌/◌, ◌%◌, ◌^◌, ◌≤◌, ◌<◌, ◌≡◌, refl, sym, ap, subst, ◌∙◌, List, [], ◌∷◌,
  ◌++◌, min, ok, arith, lt_cases, inl, inr,
}
use vanargand.Types.Amount.{u64_bound}
use vanargand.Types.Codec.{
  shift_left, shift_right_by, write_groups, write_varint, read_groups, read_varint,
}

-- The lowest seven bits and the others give the number back.
groups_value : (v s : ℕ) → v % 128 * s + v / 128 * (s * 128) ≡ v * s
groups_value v s =
    let whole = ap (λ x. x * s) (mod-add-div' v 128) in
    let split = add-mul (v % 128) (v / 128 * 128) s in
    let move = mul_assoc (v / 128) 128 s in
    let swap = ap (λ x. v / 128 * x) (mul_comm 128 s) in omega (arith, whole, split, move, swap)

pub pow_pos : (s : ℕ) → 0 < 2 ^ s
pow_pos s = one-le-pow s 2 (omega arith)

seven_more : (s : ℕ) → s + 7 ≡ suc (suc (suc (suc (suc (suc (suc s))))))
seven_more s = omega arith

pub pow_seven : (s : ℕ) → 2 ^ (s + 7) ≡ 2 ^ s * 128
pow_seven s =
    let whole = ap (λ x. 2 ^ x) (seven_more s) in
    omega (
      arith,
      whole,
      pow-suc 2 s,
      pow-suc 2 (suc s),
      pow-suc 2 (suc (suc s)),
      pow-suc 2 (suc (suc (suc s))),
      pow-suc 2 (suc (suc (suc (suc s)))),
      pow-suc 2 (suc (suc (suc (suc (suc s))))),
      pow-suc 2 (suc (suc (suc (suc (suc (suc s)))))),
    )

-- A group that fits is shifted without loss.
shift_left-fits :
    (p shift : ℕ)
    → p * 2 ^ shift < u64_bound
    → (shift_left p shift ≡ p * 2 ^ shift) × (shift_right_by (shift_left p shift) shift ≡ p)
shift_left-fits p shift h =
    let exact = mod-eq_of_lt h in
    (exact, ap (λ x. x / 2 ^ shift) exact ∙ mul-div_left p (pow_pos shift))

-- One byte with more to follow.
pub read_groups-more :
    (n shift value byte : ℕ) (rest : List ℕ)
    → n < 9
    → shift ≡ 7 * n
    → byte % 128 * 2 ^ shift < u64_bound
    → 128 ≤ byte
    → read_groups n shift value (byte ∷ rest)
      ≡ read_groups (n + 1) (shift + 7) (value + byte % 128 * 2 ^ shift) rest
unfolding read_groups
read_groups-more n shift value byte rest h s f b =
    let (exact, back) = shift_left-fits (byte % 128) shift f in
    let place : min shift 63 ≡ shift = omega arith in rw (place, back, exact) (ground arith)

-- The last byte.
read_groups-last :
    (n shift value byte : ℕ) (rest : List ℕ)
    → n < 10
    → shift ≡ 7 * n
    → byte * 2 ^ shift < u64_bound
    → byte < 128
    → (0 < n → 0 < byte)
    → read_groups n shift value (byte ∷ rest) ≡ ok (value + byte * 2 ^ shift, rest)
unfolding read_groups
read_groups-last n shift value byte rest h s f b p =
    let low : byte % 128 ≡ byte = mod-eq_of_lt b in
    let (exact, back) = shift_left-fits byte shift f in
    let place : min shift 63 ≡ shift = omega arith in
    rw (low, place, back, exact) (ground (arith, p))

-- The first of the groups that are left, when there are more.
pub first_fits : (v s : ℕ) → v * s < u64_bound → v % 128 * s < u64_bound
first_fits v s f = omega (arith, groups_value v s, f)

pub others_fit :
    (v shift : ℕ)
    → v * 2 ^ shift < u64_bound
    → (v / 128 * 2 ^ (shift + 7) < u64_bound)
      × (v % 128 * 2 ^ shift + v / 128 * 2 ^ (shift + 7) ≡ v * 2 ^ shift)
others_fit v shift f =
    rw (pow_seven shift) (omega (arith, groups_value v (2 ^ shift), f), groups_value v (2 ^ shift))

pub last_group : (v shift n : ℕ) → n + 0 ≡ 9 → shift ≡ 7 * n → v * 2 ^ shift < u64_bound → v < 128
last_group v shift n h s f =
    let end : shift ≡ 63 = omega arith in
    let bound : v * 2 ^ 63 < u64_bound = subst (λ x. v * 2 ^ x < u64_bound) end f in
    omega (arith, bound)

pub write_groups-last : (fuel v : ℕ) → v < 128 → write_groups fuel v ≡ v ∷ []
unfolding write_groups
write_groups-last zero v h = let low : v % 128 ≡ v = mod-eq_of_lt h in ap (λ x. x ∷ []) low
write_groups-last (suc fuel) v h = let low : v % 128 ≡ v = mod-eq_of_lt h in rw low (ground arith)

pub write_groups-more :
    (fuel v : ℕ)
    → 128 ≤ v
    → write_groups (suc fuel) v ≡ (v % 128 + 128) ∷ write_groups fuel (v / 128)
unfolding write_groups
write_groups-more fuel v h = ground arith

read_groups-write_groups :
    (fuel n shift value v : ℕ) (rest : List ℕ)
    → n + fuel ≡ 9
    → shift ≡ 7 * n
    → v * 2 ^ shift < u64_bound
    → (0 < n → 0 < v)
    → read_groups n shift value (write_groups fuel v ++ rest) ≡ ok (value + v * 2 ^ shift, rest)
read_groups-write_groups zero n shift value v rest h s f p =
    let small = last_group v shift n h s f in
    let written = write_groups-last zero v small in
    rw written (read_groups-last n shift value v rest (omega arith) s f small p)
read_groups-write_groups (suc fuel) n shift value v rest h s f p = elim (lt_cases v 128) [
  | inl small ↦
      ap (λ x. read_groups n shift value (x ++ rest)) (write_groups-last (suc fuel) v small)
      ∙ read_groups-last n shift value v rest (omega arith) s f small p
  | inr large ↦
      let (fits, whole) = others_fit v shift f in
      let low : (v % 128 + 128) % 128 ≡ v % 128 = omega arith in
      let first =
        read_groups-more n shift value (v % 128 + 128) (write_groups fuel (v / 128) ++ rest)
          (omega arith) s
          (subst (λ x. x * 2 ^ shift < u64_bound) (sym low) (first_fits v (2 ^ shift) f))
          (omega arith) in
      let next =
        read_groups-write_groups fuel (n + 1) (shift + 7)
          (value + (v % 128 + 128) % 128 * 2 ^ shift) (v / 128) rest (omega arith) (omega arith)
          fits (λ _. omega arith) in
      ap (λ x. read_groups n shift value (x ++ rest)) (write_groups-more fuel v large)
      ∙ first
      ∙ next
      ∙ rw low (ap (λ x. ok (x, rest)) (omega (arith, whole)))
]

-- A number of 64 bits that is written is read back, whatever bytes follow it, and the decoder is left
-- at those bytes.
pub read_varint-write_varint :
    (v : ℕ) (rest : List ℕ) (depth : ℕ)
    → v < u64_bound
    → read_varint (record { input = write_varint v ++ rest; depth = depth })
      ≡ ok (v, record { input = rest; depth = depth })
unfolding read_varint write_varint
read_varint-write_varint v rest depth h =
    let read =
      read_groups-write_groups 9 0 0 0 v rest refl refl (omega (arith, h)) (λ p. omega arith) in
    rw read (ap (λ x. ok (x, record { input = rest; depth = depth })) (omega arith))
