-- ===== src/Types/Codec/Items.antt =====
-- vanargand-types/src/codec.rs: the values that hold others. An element type is its encoder and its
-- decoder, as the traits `Encode` and `Decode` have them.
use vanargand.Common.{
  ℕ, zero, suc, ◌+◌, ◌-◌, Bool, true, false, Option, none, some, List, [], ◌∷◌, ltb, leb, ◌==◌,
  if◌then◌else◌, Result, ok, err, Done, and_then,
}
use vanargand.Common.Lists.{length}
use vanargand.Types.Codec.{
  CodecError, unexpected_end, too_deep, bad_option_tag, unordered_set, Read, new_decoder, finish,
  write_seq, read_u8, read_length, take_bytes, max_nesting, max_seq_len,
}

-- The order of byte slices.
unfoldable pub bytes_leb : List ℕ → List ℕ → Bool
bytes_leb [] ys = true
bytes_leb (x ∷ xs) [] = false
bytes_leb (x ∷ xs) (y ∷ ys) =
    let rest = bytes_leb xs ys in if ltb x y then true else if x == y then rest else false

-- `encoded <= last`, where there is a last one
unfoldable pub is_unsorted : Option (List ℕ) → List ℕ → Bool
unfolding bytes_leb
is_unsorted none encoded = false
is_unsorted (some last) encoded = bytes_leb encoded last

unfoldable pub nested : {A : Type 0} → Read A → Read A
nested f d =
    if leb max_nesting d.depth
    then err too_deep
    else and_then (f (record d { depth = d.depth + 1 }))
        λ read. ok (read.0, record read.1 { depth = read.1.depth - 1 })

module _ {A : Type 0} (encode : A → List ℕ) where
  -- The check of `write_set`.
  unfoldable pub check_set : Option (List ℕ) → ℕ → List A → Result CodecError Done
  unfolding is_unsorted
  check_set previous index [] = ok tt
  check_set previous index (item ∷ items) =
      let rest = check_set (some (encode item)) (index + 1) items in
      if is_unsorted previous (encode item) then err (unordered_set index) else rest

  unfoldable pub write_set : List A → Result CodecError (List ℕ)
  unfolding check_set write_seq
  write_set items = and_then (check_set none 0 items) λ checked. ok (write_seq encode items)

module _ {A : Type 0} (decode : Read A) where
  unfoldable pub read_option : Read (Option A)
  unfolding read_u8 nested
  read_option d = and_then (read_u8 d) λ tag.
      if tag.0 == 0
      then ok (none, tag.1)
      else if tag.0 == 1
      then and_then (nested decode tag.1) (λ read. ok (some read.0, read.1))
      else err (bad_option_tag tag.0)

  unfoldable pub read_items : ℕ → Read (List A)
  unfolding nested
  read_items zero d = ok ([], d)
  read_items (suc count) d =
      and_then (nested decode d)
        λ item. and_then (read_items count item.1) λ read. ok (item.0 ∷ read.0, read.1)

  unfoldable pub read_seq : Read (List A)
  unfolding read_length read_items
  read_seq d = and_then (read_length max_seq_len d) λ read. read_items read.0 read.1

  -- The bytes of the element are those between the two positions.
  unfoldable pub read_sorted : ℕ → ℕ → Option (List ℕ) → Read (List A)
  unfolding nested take_bytes is_unsorted
  read_sorted zero index previous d = ok ([], d)
  read_sorted (suc count) index previous d = and_then (nested decode d) λ item.
      elim (take_bytes (length d.input - length item.1.input) d.input) [
        | none ↦ err unexpected_end
        | some (encoded, after) ↦
            if is_unsorted previous encoded
            then err (unordered_set index)
            else and_then (read_sorted count (index + 1) (some encoded) item.1)
                λ read. ok (item.0 ∷ read.0, read.1)
      ]

  unfoldable pub read_set : Read (List A)
  unfolding read_length read_sorted
  read_set d = and_then (read_length max_seq_len d) λ read. read_sorted read.0 0 none read.1

  -- `Decode::from_canonical_bytes`: one whole object
  unfoldable pub from_canonical_bytes : List ℕ → Result CodecError A
  unfolding new_decoder finish
  from_canonical_bytes bytes =
      and_then (new_decoder bytes)
        λ d. and_then (decode d) λ value. and_then (finish value.1) λ finished. ok value.0
