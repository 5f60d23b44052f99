-- ===== src/Tests/Codec.antt =====
-- Numbers and sets of bytes, written and read back.
use vanargand.Common.{
  ℕ, ◌<◌, ◌≡◌, refl, ap, ◌∙◌, true, some, List, [], ◌∷◌, ◌++◌, ok, err, ok_injective, arith,
}
use vanargand.Common.Lists.{length, All}
use vanargand.Types.Amount.{u64_bound}
use vanargand.Types.Codec.{
  Decoder, unexpected_end, non_canonical_varint, unordered_set, write_seq, write_option,
  write_varint, read_varint, write_u8, read_u8, write_bool, read_bool, write_u16, read_u16,
  read_raw, read_varint_below, varint_overflow, write_bytes, read_bytes,
}
use vanargand.Types.Codec.Varint.{read_varint-write_varint}
use vanargand.Types.Codec.Truncated.{read_varint-cut}
use vanargand.Types.Codec.Bytes.{
  read_bytes-write_bytes, read_u16-write_u16, read_raw-append, read_varint_below-write_varint,
}
use vanargand.Types.Codec.Canonical.{IsByte, read_varint-IsCanonical}
use vanargand.Types.Codec.Items.{write_set, read_seq, read_option, read_set, from_canonical_bytes}
use vanargand.Types.Codec.Sets.{read_seq-write_seq, read_option-write_option}
use vanargand.Types.Codec.Objects.{from_canonical_bytes-write_set, write_set-from_canonical_bytes}

read_u8-write_u8 :
    (x : ℕ) (rest : List ℕ) (depth : ℕ)
    → read_u8 (record { input = write_u8 x ++ rest; depth = depth })
      ≡ ok (x, record { input = rest; depth = depth })
unfolding read_u8 write_u8
read_u8-write_u8 x rest depth = refl

write_u8-IsNonempty : (x : ℕ) → 0 < length (write_u8 x)
unfolding write_u8
write_u8-IsNonempty x = omega arith

read_u8_list :
    (input : List ℕ) (depth : ℕ) (x : ℕ) (d' : Decoder)
    → read_u8 (record { input = input; depth = depth }) ≡ ok (x, d')
    → input ≡ write_u8 x ++ d'.input
unfolding read_u8 write_u8
read_u8_list [] depth x d' h = ground arith
read_u8_list (byte ∷ rest) depth x d' h =
    let value = ap (λ r. r.0) (ok_injective h) in
    let left = ap (λ r. r.1.input) (ok_injective h) in
    ap (λ z. z ∷ rest) value ∙ ap (λ z. x ∷ z) left

read_u8-IsCanonical :
    (d : Decoder) (x : ℕ) (d' : Decoder)
    → All IsByte d.input
    → read_u8 d ≡ ok (x, d')
    → d.input ≡ write_u8 x ++ d'.input
read_u8-IsCanonical d x d' bytes h = read_u8_list d.input d.depth x d' h

abbrev number : Decoder
number = record { input = 172 ∷ 2 ∷ 7 ∷ []; depth = 0 }

abbrev number_left : Decoder
number_left = record { input = 7 ∷ []; depth = 0 }

number_read : read_varint number ≡ ok (300, number_left)
unfolding read_varint
number_read = refl

-- A longer encoding of a number is refused.
padded : read_varint (record { input = 129 ∷ 0 ∷ []; depth = 0 }) ≡ err non_canonical_varint
unfolding read_varint
padded = refl

abbrev set_bytes : List ℕ
set_bytes = 2 ∷ 3 ∷ 9 ∷ []

abbrev set_items : List ℕ
set_items = 3 ∷ 9 ∷ []

set_read : from_canonical_bytes (read_set read_u8) set_bytes ≡ ok set_items
unfolding from_canonical_bytes read_set read_u8
set_read = refl

set_written : write_set write_u8 set_items ≡ ok set_bytes
unfolding write_set write_u8
set_written = refl

-- An element that comes twice is refused.
repeated : from_canonical_bytes (read_set read_u8) (2 ∷ 3 ∷ 3 ∷ []) ≡ err (unordered_set 1)
unfolding from_canonical_bytes read_set read_u8
repeated = refl

truth :
    read_bool (record { input = write_bool true; depth = 0 })
    ≡ ok (true, record { input = []; depth = 0 })
unfolding read_bool write_bool
truth = refl

text_back :
    read_bytes (record { input = write_bytes (5 ∷ 6 ∷ []) ++ (7 ∷ []); depth = 0 })
    ≡ ok (5 ∷ 6 ∷ [], number_left)
text_back = read_bytes-write_bytes (5 ∷ 6 ∷ []) (7 ∷ []) 0 (omega arith)

word_back :
    read_u16 (record { input = write_u16 515 ++ (7 ∷ []); depth = 0 }) ≡ ok (515, number_left)
word_back = read_u16-write_u16 515 (7 ∷ []) 0

raw_back : read_raw 2 (record { input = 5 ∷ 6 ∷ 7 ∷ []; depth = 0 }) ≡ ok (5 ∷ 6 ∷ [], number_left)
raw_back = read_raw-append (5 ∷ 6 ∷ []) (7 ∷ []) 0

narrow_back :
    read_varint_below 256 (record { input = write_varint 200 ++ (7 ∷ []); depth = 0 })
    ≡ ok (200, number_left)
narrow_back = read_varint_below-write_varint 256 200 (7 ∷ []) 0 (omega arith) (omega arith)

too_wide : read_varint_below 256 number ≡ err varint_overflow
unfolding read_varint_below
too_wide = refl

pair_back :
    read_seq read_u8 (record { input = write_seq write_u8 (9 ∷ 3 ∷ []) ++ (7 ∷ []); depth = 0 })
    ≡ ok (9 ∷ 3 ∷ [], number_left)
pair_back =
    read_seq-write_seq write_u8 read_u8 read_u8-write_u8 write_u8-IsNonempty (9 ∷ 3 ∷ []) (7 ∷ []) 0
      (omega arith) (omega arith)

present_back :
    read_option read_u8 (record { input = write_option write_u8 (some 4) ++ (7 ∷ []); depth = 0 })
    ≡ ok (some 4, number_left)
present_back =
    read_option-write_option write_u8 read_u8 read_u8-write_u8 write_u8-IsNonempty (some 4) (7 ∷ [])
      0 (omega arith)

read_varint-write_varint_example :
    read_varint (record { input = write_varint 300 ++ (7 ∷ []); depth = 0 }) ≡ ok (300, number_left)
read_varint-write_varint_example = read_varint-write_varint 300 (7 ∷ []) 0 (omega arith)

read_varint-IsCanonical_example :
    (300 < u64_bound) × (number.input ≡ write_varint 300 ++ number_left.input)
read_varint-IsCanonical_example =
    read_varint-IsCanonical number 300 number_left (omega arith, (omega arith, (omega arith, tt)))
      number_read

from_canonical_bytes-write_set_example : write_set write_u8 set_items ≡ ok set_bytes
from_canonical_bytes-write_set_example =
    from_canonical_bytes-write_set write_u8 read_u8 read_u8-IsCanonical set_bytes set_items
      (omega arith, (omega arith, (omega arith, tt))) set_read

write_set-from_canonical_bytes_example :
    from_canonical_bytes (read_set read_u8) set_bytes ≡ ok set_items
write_set-from_canonical_bytes_example =
    write_set-from_canonical_bytes write_u8 read_u8 read_u8-write_u8 write_u8-IsNonempty set_items
      set_bytes (omega arith) (omega arith) set_written

-- 300 without its second byte
read_varint-cut_example : read_varint (record { input = 172 ∷ []; depth = 0 }) ≡ err unexpected_end
unfolding write_varint
read_varint-cut_example = read_varint-cut 300 (172 ∷ []) (2 ∷ []) 0 (omega arith) refl (omega arith)
