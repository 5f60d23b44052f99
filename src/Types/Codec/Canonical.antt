-- ===== src/Types/Codec/Canonical.antt =====
-- Only what the encoder writes is read: a number has one encoding.
use native.Mathlib.Nat.{
  mod-eq_of_lt, mod-add-div', mod-lt, add-mul, mul_assoc, mul_comm, pow-suc, one-le-pow,
}
use vanargand.Common.{
  ℕ, zero, suc, ◌+◌, ◌*◌, ◌/◌, ◌%◌, ◌^◌, ◌≤◌, ◌<◌, ◌≡◌, refl, sym, ap, subst, ◌∙◌, List, [], ◌∷◌,
  ◌++◌, min, ok, and_then-ok, ok_injective, arith, lt_cases, inl, inr,
}
use vanargand.Common.Lists.{All}
use vanargand.Types.Amount.{u64_bound}
use vanargand.Types.Codec.{
  Decoder, shift_left, shift_right_by, write_groups, write_varint, read_groups, read_varint,
}
use vanargand.Types.Codec.Varint.{pow_seven, write_groups-last, write_groups-more}

-- What one byte has passed when the loop goes on or ends.
read_groups-fits :
    (n shift value byte w : ℕ) (rest tail : List ℕ)
    → read_groups n shift value (byte ∷ rest) ≡ ok (w, tail)
    → shift_right_by (shift_left (byte % 128) (min shift 63)) (min shift 63) ≡ byte % 128
unfolding read_groups
read_groups-fits n shift value byte w rest tail r = ground arith

read_groups-fits_at :
    (n shift value byte w : ℕ) (rest tail : List ℕ)
    → n < 10
    → shift ≡ 7 * n
    → read_groups n shift value (byte ∷ rest) ≡ ok (w, tail)
    → shift_right_by (shift_left (byte % 128) shift) shift ≡ byte % 128
read_groups-fits_at n shift value byte w rest tail h s r =
    let place : min shift 63 ≡ shift = omega arith in
    subst (λ x. shift_right_by (shift_left (byte % 128) x) x ≡ byte % 128) place
      (read_groups-fits n shift value byte w rest tail r)

read_groups-end :
    (n shift value byte w : ℕ) (rest tail : List ℕ)
    → read_groups n shift value (byte ∷ rest) ≡ ok (w, tail)
    → byte < 128
    → (0 < n → 0 < byte)
unfolding read_groups
read_groups-end n shift value byte w rest tail r b p = ground arith

read_groups-result :
    (n shift value byte w : ℕ) (rest tail : List ℕ)
    → read_groups n shift value (byte ∷ rest) ≡ ok (w, tail)
    → byte < 128
    → (value + shift_left (byte % 128) shift ≡ w) × (rest ≡ tail)
unfolding read_groups
read_groups-result n shift value byte w rest tail r b = ground arith

read_groups-next :
    (n shift value byte w : ℕ) (rest tail : List ℕ)
    → shift ≡ 7 * n
    → read_groups n shift value (byte ∷ rest) ≡ ok (w, tail)
    → 128 ≤ byte
    → (n < 9)
      × (read_groups (n + 1) (shift + 7) (value + shift_left (byte % 128) shift) rest
          ≡ ok (w, tail))
unfolding read_groups
read_groups-next n shift value byte w rest tail s r b = ground arith

-- What comes back from a shift has not lost its high bits.
shift_left-fits_inv :
    (p shift : ℕ)
    → shift_right_by (shift_left p shift) shift ≡ p
    → (p * 2 ^ shift < u64_bound) × (shift_left p shift ≡ p * 2 ^ shift)
shift_left-fits_inv p shift h =
    let whole = mod-add-div' (p * 2 ^ shift % u64_bound) (2 ^ shift) in
    let same = ap (λ x. x * 2 ^ shift) h in
    let low : p * 2 ^ shift % u64_bound < u64_bound = mod-lt (p * 2 ^ shift) (omega arith) in
    let fits : p * 2 ^ shift < u64_bound = omega (arith, whole, same, low) in
    (fits, mod-eq_of_lt fits)

abbrev pub IsByte : ℕ → Type 0
IsByte byte = byte < 256

-- What a run of the loop over the last groups has read.
abbrev IsGroupRun : ℕ → ℕ → ℕ → ℕ → List ℕ → ℕ → List ℕ → Type 0
IsGroupRun fuel n shift value input w tail =
    (v : ℕ) × (w ≡ value + v * 2 ^ shift)
    × (v < 2 * 128 ^ fuel)
    × (0 < n → 0 < v)
    × (input ≡ write_groups fuel v ++ tail)

last_bit : (byte shift n : ℕ) → n + 0 ≡ 9 → shift ≡ 7 * n → byte * 2 ^ shift < u64_bound → byte < 2
last_bit byte shift n h s f =
    let end : shift ≡ 63 = omega arith in
    let bound : byte * 2 ^ 63 < u64_bound = subst (λ x. byte * 2 ^ x < u64_bound) end f in
    omega (arith, bound)

byte_bound :
    (fuel n shift byte : ℕ)
    → n + fuel ≡ 9
    → shift ≡ 7 * n
    → byte < 128
    → byte * 2 ^ shift < u64_bound
    → byte < 2 * 128 ^ fuel
byte_bound zero n shift byte h s b f = last_bit byte shift n h s f
byte_bound (suc fuel) n shift byte h s b f =
    let positive = one-le-pow fuel 128 (omega arith) in omega (arith, pow-suc 128 fuel, positive)

joined_value : (p v shift : ℕ) → p * 2 ^ shift + v * 2 ^ (shift + 7) ≡ (p + v * 128) * 2 ^ shift
joined_value p v shift =
    let swap = ap (λ x. v * x) (mul_comm 128 (2 ^ shift)) in
    let seven = ap (λ x. v * x) (pow_seven shift) in
    omega (arith, add-mul p (v * 128) (2 ^ shift), mul_assoc v 128 (2 ^ shift), swap, seven)

read_groups-last_byte :
    (fuel n shift value byte : ℕ) (rest : List ℕ) (w : ℕ) (tail : List ℕ)
    → n + fuel ≡ 9
    → shift ≡ 7 * n
    → byte < 128
    → byte % 128 * 2 ^ shift < u64_bound
    → shift_left (byte % 128) shift ≡ byte % 128 * 2 ^ shift
    → read_groups n shift value (byte ∷ rest) ≡ ok (w, tail)
    → IsGroupRun fuel n shift value (byte ∷ rest) w tail
read_groups-last_byte fuel n shift value byte rest w tail h s b f e r =
    let low : byte % 128 ≡ byte = mod-eq_of_lt b in
    let (sum, same) = read_groups-result n shift value byte w rest tail r b in
    let scaled = ap (λ x. x * 2 ^ shift) low in
    (
      byte,
      omega (arith, sum, e, scaled),
      byte_bound fuel n shift byte h s b (omega (arith, f, scaled)),
      read_groups-end n shift value byte w rest tail r b,
      ap (λ l. byte ∷ l) same ∙ ap (λ l. l ++ tail) (sym (write_groups-last fuel byte b)),
    )

read_groups-first_byte :
    (fuel n shift value byte : ℕ) (rest : List ℕ) (w : ℕ) (tail : List ℕ)
    → 128 ≤ byte
    → IsByte byte
    → IsGroupRun fuel (n + 1) (shift + 7) (value + byte % 128 * 2 ^ shift) rest w tail
    → IsGroupRun (suc fuel) n shift value (byte ∷ rest) w tail
read_groups-first_byte fuel n shift value byte rest w tail b l (v, sum, bound, positive, written) =
    let more : 0 < v = positive (omega arith) in
    let low : (byte % 128 + v * 128) % 128 ≡ byte % 128 = omega arith in
    let high : (byte % 128 + v * 128) / 128 ≡ v = omega arith in
    let back : byte % 128 + 128 ≡ byte = omega arith in
    let step = write_groups-more fuel (byte % 128 + v * 128) (omega arith) in
    let next : ((byte % 128 + v * 128) % 128 + 128)
          ∷ write_groups fuel ((byte % 128 + v * 128) / 128)
        ≡ (byte ∷ write_groups fuel v) =
      rw (low, high, back) refl in
    (
      byte % 128 + v * 128,
      omega (arith, sum, joined_value (byte % 128) v shift),
      omega (arith, pow-suc 128 fuel, bound),
      λ p. omega (arith, more),
      ap (λ x. byte ∷ x) written ∙ ap (λ x. x ++ tail) (sym (step ∙ next)),
    )

read_groups-IsCanonical :
    (fuel n shift value : ℕ) (input : List ℕ) (w : ℕ) (tail : List ℕ)
    → n + fuel ≡ 9
    → shift ≡ 7 * n
    → All IsByte input
    → read_groups n shift value input ≡ ok (w, tail)
    → IsGroupRun fuel n shift value input w tail
unfolding read_groups
read_groups-IsCanonical fuel n shift value [] w tail h s bytes r = ground arith
read_groups-IsCanonical zero n shift value (byte ∷ rest) w tail h s (byte_fits, bytes) r =
    let (fits, exact) =
      shift_left-fits_inv (byte % 128) shift
        (read_groups-fits_at n shift value byte w rest tail (omega arith) s r) in
    elim (lt_cases byte 128) [
      | inl b ↦ read_groups-last_byte zero n shift value byte rest w tail h s b fits exact r
      | inr b ↦
          let (more, next) = read_groups-next n shift value byte w rest tail s r b in
          absurd (omega (arith, more))
    ]
read_groups-IsCanonical (suc fuel) n shift value (byte ∷ rest) w tail h s (byte_fits, bytes) r =
    let (fits, exact) =
      shift_left-fits_inv (byte % 128) shift
        (read_groups-fits_at n shift value byte w rest tail (omega arith) s r) in
    elim (lt_cases byte 128) [
      | inl b ↦ read_groups-last_byte (suc fuel) n shift value byte rest w tail h s b fits exact r
      | inr b ↦
          let (more, next) = read_groups-next n shift value byte w rest tail s r b in
          let from =
            subst (λ x. read_groups (n + 1) (shift + 7) (value + x) rest ≡ ok (w, tail)) exact
              next in
          read_groups-first_byte fuel n shift value byte rest w tail b byte_fits (
            read_groups-IsCanonical fuel (n + 1) (shift + 7) (value + byte % 128 * 2 ^ shift) rest w
              tail (omega arith) (omega arith) bytes from)
    ]

write_varint-groups : (v : ℕ) → write_varint v ≡ write_groups 9 v
unfolding write_varint
write_varint-groups v = refl

-- When a number is read from bytes below 256, it fits in 64 bits and the bytes that were read are
-- those that the encoder writes for it: no other encoding of a number is accepted.
pub read_varint-IsCanonical :
    (d : Decoder) (v : ℕ) (d' : Decoder)
    → All IsByte d.input
    → read_varint d ≡ ok (v, d')
    → (v < u64_bound) × (d.input ≡ write_varint v ++ d'.input)
unfolding read_varint
read_varint-IsCanonical d v d' bytes h =
    let ((w, tail), read, same) =
      and_then-ok (read_groups 0 0 0 d.input) (λ r. ok (r.0, record d { input = r.1 })) (v, d') h in
    let value = ap (λ r. r.0) (ok_injective same) in
    let left = ap (λ r. r.1.input) (ok_injective same) in
    let (u, sum, bound, positive, written) =
      read_groups-IsCanonical 9 0 0 0 d.input w tail refl refl bytes read in
    let number : u ≡ v = omega (arith, sum, value) in
    (
      omega (arith, number, bound),
      written
          ∙ ap (λ x. write_groups 9 x ++ tail) number
          ∙ ap (λ x. write_groups 9 v ++ x) left
          ∙ ap (λ x. x ++ d'.input) (sym (write_varint-groups v)),
    )
