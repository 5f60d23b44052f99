-- ===== src/Types/Codec/Sets.antt =====
-- Sequences and sets: what is written is read back, and a set is read only as it is written.
use vanargand.Common.{
  ℕ, ◌+◌, ◌≤◌, ◌<◌, ◌≡◌, refl, sym, false, Option, none, some, List, [], ◌∷◌, ◌++◌, ok, and_then,
  and_then-ok, ok_injective, arith,
}
use vanargand.Common.Lists.{length, length-append}
use vanargand.Types.Codec.{
  Read, write_option, write_varint, write_items, write_seq, max_nesting, max_seq_len,
}
use vanargand.Types.Codec.Bytes.{append_assoc, take_bytes-consumed, read_length-write}
use vanargand.Types.Codec.Items.{
  is_unsorted, nested, check_set, write_set, read_option, read_items, read_seq, read_sorted,
  read_set,
}

module _ {A : Type 0} (encode : A → List ℕ) (decode : Read A)
    (decode-encode : (x : A) (rest : List ℕ) (depth : ℕ)
      → decode (record { input = encode x ++ rest; depth = depth })
        ≡ ok (x, record { input = rest; depth = depth }))
    (encode-IsNonempty : (x : A) → 0 < length (encode x)) where
  nested-encode :
      (x : A) (rest : List ℕ) (depth : ℕ)
      → depth < max_nesting
      → nested decode (record { input = encode x ++ rest; depth = depth })
        ≡ ok (x, record { input = rest; depth = depth })
  unfolding nested
  nested-encode x rest depth h = rw (decode-encode x rest (depth + 1)) (ground arith)

  pub read_option-write_option :
      (o : Option A) (rest : List ℕ) (depth : ℕ)
      → depth < max_nesting
      → read_option decode (record { input = write_option encode o ++ rest; depth = depth })
        ≡ ok (o, record { input = rest; depth = depth })
  unfolding read_option write_option
  read_option-write_option none rest depth h = refl
  read_option-write_option (some x) rest depth h = rw (nested-encode x rest depth h) refl

  length-write_items : (items : List A) → length items ≤ length (write_items encode items)
  unfolding write_items
  length-write_items [] = omega arith
  length-write_items (x ∷ xs) = omega (
    arith,
    length-write_items xs,
    encode-IsNonempty x,
    length-append (encode x) (write_items encode xs),
  )

  read_items-write_items :
      (items : List A) (rest : List ℕ) (depth : ℕ)
      → depth < max_nesting
      → read_items decode
          (length items)
          (record { input = write_items encode items ++ rest; depth = depth })
        ≡ ok (items, record { input = rest; depth = depth })
  unfolding read_items write_items
  read_items-write_items [] rest depth h = refl
  read_items-write_items (x ∷ xs) rest depth h =
      rw (append_assoc (encode x) (write_items encode xs) rest) rw
        (nested-encode x (write_items encode xs ++ rest) depth h) rw
        (read_items-write_items xs rest depth h) refl

  counted :
      (items : List A) (rest : List ℕ) → length items ≤ length (write_items encode items ++ rest)
  counted items rest =
      omega (arith, length-write_items items, length-append (write_items encode items) rest)

  pub read_seq-write_seq :
      (items : List A) (rest : List ℕ) (depth : ℕ)
      → length items ≤ max_seq_len
      → depth < max_nesting
      → read_seq decode (record { input = write_seq encode items ++ rest; depth = depth })
        ≡ ok (items, record { input = rest; depth = depth })
  unfolding read_seq write_seq
  read_seq-write_seq items rest depth l h =
      rw (append_assoc (write_varint (length items)) (write_items encode items) rest) rw
        (read_length-write max_seq_len (length items) depth (write_items encode items ++ rest)
          (omega arith) l (counted items rest))
        (read_items-write_items items rest depth h)

  check_set-inv :
      (previous : Option (List ℕ)) (index : ℕ) (x : A) (xs : List A)
      → check_set encode previous index (x ∷ xs) ≡ ok tt
      → (is_unsorted previous (encode x) ≡ false)
        × (check_set encode (some (encode x)) (index + 1) xs ≡ ok tt)
  unfolding check_set
  check_set-inv previous index x xs h = ground arith

  read_sorted-write_items :
      (items : List A) (index : ℕ) (previous : Option (List ℕ)) (rest : List ℕ) (depth : ℕ)
      → depth < max_nesting
      → check_set encode previous index items ≡ ok tt
      → read_sorted decode
          (length items)
          index
          previous
          (record { input = write_items encode items ++ rest; depth = depth })
        ≡ ok (items, record { input = rest; depth = depth })
  unfolding read_sorted write_items
  read_sorted-write_items [] index previous rest depth h c = refl
  read_sorted-write_items (x ∷ xs) index previous rest depth h c =
      let (sorted, others) = check_set-inv previous index x xs c in
      let tail = write_items encode xs ++ rest in
      rw (append_assoc (encode x) (write_items encode xs) rest) rw (nested-encode x tail depth h) rw
        (take_bytes-consumed (encode x) tail, and_then) rw (sorted, and_then) rw
        (read_sorted-write_items xs (index + 1) (some (encode x)) rest depth h others, and_then)
        refl

  pub read_set-write_set :
      (items : List A) (bytes rest : List ℕ) (depth : ℕ)
      → length items ≤ max_seq_len
      → depth < max_nesting
      → write_set encode items ≡ ok bytes
      → read_set decode (record { input = bytes ++ rest; depth = depth })
        ≡ ok (items, record { input = rest; depth = depth })
  unfolding read_set write_set write_seq
  read_set-write_set items bytes rest depth l h w =
      let (checked, sorted, same) =
        and_then-ok (check_set encode none 0 items) (λ c. ok (write_seq encode items)) bytes w in
      let written = ok_injective same in
      rw (sym written) rw
        (append_assoc (write_varint (length items)) (write_items encode items) rest) rw
        (read_length-write max_seq_len (length items) depth (write_items encode items ++ rest)
          (omega arith) l (counted items rest))
        (read_sorted-write_items items 0 none rest depth h sorted)
