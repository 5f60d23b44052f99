-- ===== src/Types/Codec/Objects.antt =====
-- One whole object: its bytes and its value determine each other.
use vanargand.Common.{
  ℕ, ◌≤◌, ◌<◌, ◌≡◌, refl, sym, ap, subst, ◌∙◌, List, [], ◌∷◌, ◌++◌, ltb, ok, and_then, and_then-ok,
  ok_injective, arith,
}
use vanargand.Common.Lists.{length, All}
use vanargand.Types.Codec.{Decoder, Read, new_decoder, finish, max_object_size, max_seq_len}
use vanargand.Types.Codec.Canonical.{IsByte}
use vanargand.Types.Codec.Items.{write_set, read_set, from_canonical_bytes}
use vanargand.Types.Codec.Sets.{read_set-write_set}
use vanargand.Types.Codec.SetsCanonical.{read_set-IsCanonical, guard-inv}

append_nil : (xs : List ℕ) → xs ++ [] ≡ xs
append_nil [] = refl
append_nil (x ∷ xs) = ap (λ l. x ∷ l) (append_nil xs)

empty : (xs : List ℕ) → length xs ≡ 0 → xs ≡ []
empty [] h = refl
empty (x ∷ xs) h = ground arith

finish-ok : (d : Decoder) → finish d ≡ ok tt → d.input ≡ []
unfolding finish
finish-ok d h = empty d.input (ground arith)

new_decoder-ok : (bytes : List ℕ) (d : Decoder) → new_decoder bytes ≡ ok d → d.input ≡ bytes
unfolding new_decoder
new_decoder-ok bytes d h =
    let (fits, same) = guard-inv (ltb max_object_size (length bytes)) _ _ d h in
    sym (ap (λ r. r.input) (ok_injective same))

new_decoder-fits :
    (bytes : List ℕ)
    → length bytes ≤ max_object_size
    → new_decoder bytes ≡ ok (record { input = bytes; depth = 0 })
unfolding new_decoder
new_decoder-fits bytes h = ground arith

from_canonical_bytes-ok :
    {A : Type 0} (decode : Read A) (bytes : List ℕ) (x : A)
    → from_canonical_bytes decode bytes ≡ ok x
    → (d d' : Decoder) × (d.input ≡ bytes) × (decode d ≡ ok (x, d')) × (d'.input ≡ [])
unfolding from_canonical_bytes
from_canonical_bytes-ok decode bytes x h =
    let (d, new, run) = and_then-ok (new_decoder bytes) _ x h in
    let ((y, d'), read, last) = and_then-ok (decode d) _ x run in
    let (done, finished, same) = and_then-ok (finish d') _ x last in
    (
      d,
      d',
      new_decoder-ok bytes d new,
      read ∙ ap (λ z. ok (z, d')) (ok_injective same),
      finish-ok d' finished,
    )

-- When every element that the element's decoder reads stands in the input as its encoder writes it,
-- then bytes below 256 that are accepted as a whole set are the bytes that `write_set` writes for the
-- elements read, which are thus in strictly ascending order: a set has one encoding.
pub from_canonical_bytes-write_set :
    {A : Type 0} (encode : A → List ℕ) (decode : Read A)
    → ((d : Decoder) (x : A) (d' : Decoder)
        → All IsByte d.input
        → decode d ≡ ok (x, d')
        → d.input ≡ encode x ++ d'.input)
    → (bytes : List ℕ) (items : List A) → All IsByte bytes
    → from_canonical_bytes (read_set decode) bytes ≡ ok items
    → write_set encode items ≡ ok bytes
from_canonical_bytes-write_set encode decode canonical bytes items small h =
    let (d, d', start, read, end) = from_canonical_bytes-ok (read_set decode) bytes items h in
    let (written, same, whole, bound) =
      read_set-IsCanonical encode decode canonical d items d' (subst (All IsByte) (sym start) small)
        read in
    same ∙ ap ok (sym (append_nil written) ∙ ap (λ r. written ++ r) (sym end) ∙ sym whole ∙ start)

-- For an element whose decoder reads back what its encoder writes, which is at least one byte: a set
-- that `write_set` writes, of at most `max_seq_len` elements and `max_object_size` bytes, is decoded as
-- a whole object to the same elements.
pub write_set-from_canonical_bytes :
    {A : Type 0} (encode : A → List ℕ) (decode : Read A)
    → ((x : A) (rest : List ℕ) (depth : ℕ)
        → decode (record { input = encode x ++ rest; depth = depth })
          ≡ ok (x, record { input = rest; depth = depth }))
    → ((x : A) → 0 < length (encode x))
    → (items : List A) (bytes : List ℕ) → length items ≤ max_seq_len
    → length bytes ≤ max_object_size
    → write_set encode items ≡ ok bytes
    → from_canonical_bytes (read_set decode) bytes ≡ ok items
unfolding from_canonical_bytes
write_set-from_canonical_bytes encode decode law some_byte items bytes l b w =
    let read = read_set-write_set encode decode law some_byte items bytes [] 0 l (omega arith) w in
    let from =
      subst
        (λ i.
          read_set decode (record { input = i; depth = 0 })
          ≡ ok (items, record { input = []; depth = 0 }))
        (append_nil bytes) read in
    rw (new_decoder-fits bytes b, and_then) (rw (from, and_then) refl)
