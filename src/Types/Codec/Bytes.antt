-- ===== src/Types/Codec/Bytes.antt =====
-- Byte strings with their length in front: what is written is read back.
use vanargand.Common.{ℕ, ◌-◌, ◌≤◌, ◌<◌, ◌≡◌, refl, ap, some, List, [], ◌∷◌, ◌++◌, ok, arith}
use vanargand.Common.Lists.{length, length-append}
use vanargand.Types.Amount.{u64_bound}
use vanargand.Types.Codec.{
  write_varint, max_bytes_len, write_bytes, read_bytes, take_bytes, read_raw, read_u16, write_u16,
  read_varint_below, take_slice, read_length,
}
use vanargand.Types.Codec.Varint.{read_varint-write_varint}

pub append_assoc : (xs ys zs : List ℕ) → (xs ++ ys) ++ zs ≡ xs ++ (ys ++ zs)
append_assoc [] ys zs = refl
append_assoc (x ∷ xs) ys zs = ap (λ l. x ∷ l) (append_assoc xs ys zs)

pub take_bytes-append : (xs ys : List ℕ) → take_bytes (length xs) (xs ++ ys) ≡ some (xs, ys)
unfolding take_bytes
take_bytes-append [] ys = refl
take_bytes-append (x ∷ xs) ys = rw (take_bytes-append xs ys) refl

pub take_bytes-consumed :
    (xs ys : List ℕ) → take_bytes (length (xs ++ ys) - length ys) (xs ++ ys) ≡ some (xs, ys)
take_bytes-consumed xs ys =
    let size : length (xs ++ ys) - length ys ≡ length xs = omega (arith, length-append xs ys) in
    rw size (take_bytes-append xs ys)

pub read_length-write :
    (limit n depth : ℕ) (rest : List ℕ)
    → n < u64_bound
    → n ≤ limit
    → n ≤ length rest
    → read_length limit (record { input = write_varint n ++ rest; depth = depth })
      ≡ ok (n, record { input = rest; depth = depth })
unfolding read_length
read_length-write limit n depth rest u l r =
    rw (read_varint-write_varint n rest depth u) (ground arith)

pub read_bytes-write_bytes :
    (bytes rest : List ℕ) (depth : ℕ)
    → length bytes ≤ max_bytes_len
    → read_bytes (record { input = write_bytes bytes ++ rest; depth = depth })
      ≡ ok (bytes, record { input = rest; depth = depth })
unfolding read_bytes write_bytes take_slice
read_bytes-write_bytes bytes rest depth h =
    rw (append_assoc (write_varint (length bytes)) bytes rest) rw
      (read_length-write max_bytes_len (length bytes) depth (bytes ++ rest) (omega arith) h
        (omega (arith, length-append bytes rest)))
      rw (take_bytes-append bytes rest, take_slice) refl

pub read_raw-append :
    (bytes rest : List ℕ) (depth : ℕ)
    → read_raw (length bytes) (record { input = bytes ++ rest; depth = depth })
      ≡ ok (bytes, record { input = rest; depth = depth })
unfolding read_raw take_slice
read_raw-append bytes rest depth =
    let size = length-append bytes rest in
    let taken = take_bytes-append bytes rest in rw (taken, take_slice) (ground (arith, size))

pub read_u16-write_u16 :
    (v : ℕ) (rest : List ℕ) (depth : ℕ)
    → read_u16 (record { input = write_u16 v ++ rest; depth = depth })
      ≡ ok (v, record { input = rest; depth = depth })
unfolding read_u16 write_u16
read_u16-write_u16 v rest depth =
    ap (λ x. ok (x, record { input = rest; depth = depth })) (omega arith)

pub read_varint_below-write_varint :
    (bound v : ℕ) (rest : List ℕ) (depth : ℕ)
    → v < bound
    → v < u64_bound
    → read_varint_below bound (record { input = write_varint v ++ rest; depth = depth })
      ≡ ok (v, record { input = rest; depth = depth })
unfolding read_varint_below
read_varint_below-write_varint bound v rest depth b u =
    rw (read_varint-write_varint v rest depth u) (ground arith)
