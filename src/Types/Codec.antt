-- ===== src/Types/Codec.antt =====
-- vanargand-types/src/codec.rs: the canonical encoding. An encoder is the list of the bytes that it
-- has written; a decoder is the bytes that it has not read yet, with its nesting depth.
pub mod Varint
pub mod Bytes
pub mod Canonical
pub mod Truncated
pub mod Items
pub mod Sets
pub mod SetsCanonical
pub mod Objects
use vanargand.Common.{
  ℕ, zero, suc, ◌+◌, ◌-◌, ◌*◌, ◌/◌, ◌%◌, ◌^◌, Bool, true, false, Option, none, some, List, [], ◌∷◌,
  ◌++◌, ltb, leb, ◌==◌, not, ◌&&◌, ◌||◌, if◌then◌else◌, min, Result, ok, err, Done, and_then,
}
use vanargand.Common.Lists.{length}
use vanargand.Types.Amount.{u64_bound}

abbrev pub max_object_size : ℕ
max_object_size = 1_048_576

abbrev pub max_seq_len : ℕ
max_seq_len = 65_536

abbrev pub max_bytes_len : ℕ
max_bytes_len = 1_048_576

abbrev pub max_nesting : ℕ
max_nesting = 32

abbrev pub max_varint_bytes : ℕ
max_varint_bytes = 10

-- The texts are left out: what was wanted, the type that a number had to fit, which limit was passed.
pub data CodecError : Type 0 where
  unexpected_end non_canonical_varint varint_too_wide varint_overflow invalid_utf8 too_deep
        invalid :
      CodecError
  trailing_bytes non_canonical_bool bad_option_tag unordered_set unknown_variant : ℕ → CodecError
  limit_exceeded length_beyond_input : ℕ → ℕ → CodecError

pub record Decoder : Type 0 where
  pub input : List ℕ
  pub depth : ℕ

-- `u64::shl` and `shr`
abbrev pub shift_left : ℕ → ℕ → ℕ
shift_left value count = value * 2 ^ count % u64_bound

abbrev pub shift_right_by : ℕ → ℕ → ℕ
shift_right_by value count = value / 2 ^ count

-- The loop of `write_varint`: a `u64` has at most nine groups of seven bits before its last one.
unfoldable pub write_groups : ℕ → ℕ → List ℕ
write_groups zero value = value % 128 ∷ []
write_groups (suc fuel) value =
    let rest = write_groups fuel (value / 128) in
    if leb 128 value then (value % 128 + 128) ∷ rest else value % 128 ∷ []

unfoldable pub write_varint : ℕ → List ℕ
unfolding write_groups
write_varint value = write_groups 9 value

unfoldable pub write_bool : Bool → List ℕ
write_bool false = 0 ∷ []
write_bool true = 1 ∷ []

unfoldable pub write_u8 : ℕ → List ℕ
write_u8 value = value ∷ []

-- little endian
unfoldable pub write_u16 : ℕ → List ℕ
write_u16 value = value % 256 ∷ value / 256 ∷ []

unfoldable pub write_bytes : List ℕ → List ℕ
unfolding write_varint
write_bytes bytes = write_varint (length bytes) ++ bytes

module _ {A : Type 0} (encode : A → List ℕ) where
  unfoldable pub write_option : Option A → List ℕ
  write_option none = 0 ∷ []
  write_option (some inner) = 1 ∷ encode inner

  unfoldable pub write_items : List A → List ℕ
  write_items [] = []
  write_items (item ∷ items) = encode item ++ write_items items

  unfoldable pub write_seq : List A → List ℕ
  unfolding write_varint write_items
  write_seq items = write_varint (length items) ++ write_items items

-- A method of the decoder: an error ends the decoding of the object.
abbrev pub Read : Type 0 → Type 0
Read A = Decoder → Result CodecError (A × Decoder)

unfoldable pub new_decoder : List ℕ → Result CodecError Decoder
new_decoder bytes =
    if ltb max_object_size (length bytes)
    then err (limit_exceeded max_object_size (length bytes))
    else ok (record { input = bytes; depth = 0 })

unfoldable pub finish : Decoder → Result CodecError Done
finish d = if length d.input == 0 then ok tt else err (trailing_bytes (length d.input))

unfoldable pub read_u8 : Read ℕ
read_u8 d = elim d.input [
  | [] ↦ err unexpected_end
  | byte ∷ rest ↦ ok (byte, record d { input = rest })
]

unfoldable pub read_bool : Read Bool
unfolding read_u8
read_bool d = and_then (read_u8 d) λ read.
    if read.0 == 0
    then ok (false, read.1)
    else if read.0 == 1
    then ok (true, read.1)
    else err (non_canonical_bool read.0)

-- The loop of `read_varint`. The groups do not overlap, so that `|` adds them.
unfoldable pub read_groups : ℕ → ℕ → ℕ → List ℕ → Result CodecError (ℕ × List ℕ)
read_groups bytes_read shift value [] = err unexpected_end
read_groups bytes_read shift value (byte ∷ rest) =
    let read = bytes_read + 1 in
    let payload = byte % 128 in
    let place = min shift 63 in
    let more = read_groups read (shift + 7) (value + shift_left payload shift) rest in
    if ltb max_varint_bytes read
    then err varint_too_wide
    else if not (ltb shift 64 && (shift_right_by (shift_left payload place) place == payload))
    then err varint_overflow
    else if ltb byte 128
    then (if ltb 1 read && (byte == 0)
        then err non_canonical_varint
        else ok (value + shift_left payload shift, rest))
    else if leb 64 (shift + 7) && leb max_varint_bytes read
    then err varint_too_wide
    else more

unfoldable pub read_varint : Read ℕ
unfolding read_groups
read_varint d =
    and_then (read_groups 0 0 0 d.input) λ read. ok (read.0, record d { input = read.1 })

-- `read_length` and `read_seq_len`, which check the same against their own limit
unfoldable pub read_length : ℕ → Read ℕ
unfolding read_varint
read_length limit d = and_then (read_varint d) λ read.
    if ltb limit read.0
    then err (limit_exceeded limit read.0)
    else if ltb (length read.1.input) read.0
    then err (length_beyond_input read.0 (length read.1.input))
    else ok read

unfoldable pub take_bytes : ℕ → List ℕ → Option (List ℕ × List ℕ)
take_bytes zero input = some ([], input)
take_bytes (suc count) [] = none
take_bytes (suc count) (byte ∷ input) = elim (take_bytes count input) [
  | none ↦ none
  | some (taken, rest) ↦ some (byte ∷ taken, rest)
]

-- `Decoder::take`
unfoldable pub take_slice : ℕ → Read (List ℕ)
unfolding take_bytes
take_slice count d = elim (take_bytes count d.input) [
  | none ↦ err unexpected_end
  | some (taken, rest) ↦ ok (taken, record d { input = rest })
]

unfoldable pub read_bytes : Read (List ℕ)
unfolding read_length take_slice
read_bytes d = and_then (read_length max_bytes_len d) λ read. take_slice read.0 read.1

-- A byte string whose length is known from elsewhere.
unfoldable pub read_raw : ℕ → Read (List ℕ)
unfolding take_slice
read_raw count d =
    if ltb (length d.input) count
    then err (length_beyond_input count (length d.input))
    else take_slice count d

-- `read_array::<2>` and `u16::from_le_bytes`
unfoldable pub read_u16 : Read ℕ
read_u16 d = elim d.input [
  | [] ↦ err unexpected_end
  | low ∷ [] ↦ err unexpected_end
  | low ∷ high ∷ rest ↦ ok (low + high * 256, record d { input = rest })
]

-- A number that must fit in a narrower field: `read_varint_u32` and `read_varint_u8`.
unfoldable pub read_varint_below : ℕ → Read ℕ
unfolding read_varint
read_varint_below bound d =
    and_then (read_varint d) λ read. if ltb read.0 bound then ok read else err varint_overflow
