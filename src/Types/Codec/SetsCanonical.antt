-- ===== src/Types/Codec/SetsCanonical.antt =====
-- A set that has been read is the one that the encoder writes: sorted, without repetition.
use vanargand.Common.{
  ℕ, zero, suc, ◌+◌, ◌-◌, ◌≤◌, ◌≡◌, refl, sym, ap, subst, ◌∙◌, Bool, true, false, Option, none,
  some, List, [], ◌∷◌, ◌++◌, ltb, leb, if◌then◌else◌, Result, ok, err, and_then, and_then-ok,
  ok_injective, arith,
}
use vanargand.Common.Lists.{length, All}
use vanargand.Types.Codec.{
  Decoder, CodecError, unordered_set, Read, write_varint, write_items, write_seq, read_varint,
  read_length, take_bytes, max_nesting, max_seq_len,
}
use vanargand.Types.Codec.Bytes.{append_assoc, take_bytes-consumed}
use vanargand.Types.Codec.Canonical.{IsByte, read_varint-IsCanonical}
use vanargand.Types.Codec.Items.{is_unsorted, nested, check_set, write_set, read_sorted, read_set}

All-append_right : (xs ys : List ℕ) → All IsByte (xs ++ ys) → All IsByte ys
All-append_right [] ys h = h
All-append_right (x ∷ xs) ys (p, h) = All-append_right xs ys h

pub guard-inv :
    {A : Type 0} (b : Bool) (e : CodecError) (r : Result CodecError A) (a : A)
    → (if b then err e else r) ≡ ok a
    → (b ≡ false) × (r ≡ ok a)
guard-inv true e r a h = ground arith
guard-inv false e r a h = (refl, h)

read_length-inv :
    (limit n : ℕ) (d d' : Decoder)
    → read_length limit d ≡ ok (n, d')
    → (read_varint d ≡ ok (n, d')) × (n ≤ limit)
unfolding read_length
read_length-inv limit n d d' h =
    let ((m, after), read, checked) = and_then-ok (read_varint d) _ (n, d') h in
    let (bound, next) = guard-inv (ltb limit m) _ _ (n, d') checked in
    let (fits, same) = guard-inv (ltb (length after.input) m) _ _ (n, d') next in
    let value = ap (λ r. r.0) (ok_injective same) in (read ∙ same, ground (arith, bound, value))

module _ {A : Type 0} (encode : A → List ℕ) (decode : Read A)
    (decode-IsCanonical : (d : Decoder) (x : A) (d' : Decoder)
      → All IsByte d.input
      → decode d ≡ ok (x, d')
      → d.input ≡ encode x ++ d'.input) where
  nested-IsCanonical :
      (d : Decoder) (x : A) (d' : Decoder)
      → All IsByte d.input
      → nested decode d ≡ ok (x, d')
      → d.input ≡ encode x ++ d'.input
  unfolding nested
  nested-IsCanonical d x d' bytes h =
      let (deep, run) = guard-inv (leb max_nesting d.depth) _ _ (x, d') h in
      let ((y, after), read, same) =
        and_then-ok (decode (record d { depth = d.depth + 1 })) _ (x, d') run in
      let value = ap (λ r. r.0) (ok_injective same) in
      let left = ap (λ r. r.1.input) (ok_injective same) in
      decode-IsCanonical (record d { depth = d.depth + 1 }) y after bytes read
      ∙ ap (λ z. encode z ++ after.input) value
      ∙ ap (λ z. encode x ++ z) left

  check_set-cons :
      (previous : Option (List ℕ)) (index : ℕ) (x : A) (xs : List A)
      → is_unsorted previous (encode x) ≡ false
      → check_set encode (some (encode x)) (index + 1) xs ≡ ok tt
      → check_set encode previous index (x ∷ xs) ≡ ok tt
  unfolding check_set
  check_set-cons previous index x xs s o = rw s o

  read_sorted-step :
      (count index : ℕ) (previous : Option (List ℕ)) (d d₁ : Decoder) (x : A)
      → nested decode d ≡ ok (x, d₁)
      → d.input ≡ encode x ++ d₁.input
      → read_sorted decode (suc count) index previous d ≡ (
          if is_unsorted previous (encode x)
          then err (unordered_set index)
          else and_then
              (read_sorted decode count (index + 1) (some (encode x)) d₁)
              λ r. ok (x ∷ r.0, r.1))
  unfolding read_sorted
  read_sorted-step count index previous d d₁ x read same =
      let taken : take_bytes (length d.input - length d₁.input) d.input
          ≡ some (encode x, d₁.input) =
        subst (λ i. take_bytes (length i - length d₁.input) i ≡ some (encode x, d₁.input))
          (sym same) (take_bytes-consumed (encode x) d₁.input) in
      rw (read, and_then) (rw (taken, and_then) refl)

  abbrev IsWritten : ℕ → ℕ → Option (List ℕ) → List ℕ → List ℕ → List A → Type 0
  IsWritten count index previous input rest items =
      (length items ≡ count)
      × (check_set encode previous index items ≡ ok tt)
      × (input ≡ write_items encode items ++ rest)

  read_sorted-IsCanonical :
      (count index : ℕ) (previous : Option (List ℕ)) (d : Decoder) (items : List A) (d' : Decoder)
      → All IsByte d.input
      → read_sorted decode count index previous d ≡ ok (items, d')
      → IsWritten count index previous d.input d'.input items
  unfolding read_sorted write_items check_set
  read_sorted-IsCanonical zero index previous d items d' bytes h =
      subst (IsWritten zero index previous d.input d'.input) (ap (λ r. r.0) (ok_injective h))
        (refl, refl, ap (λ r. r.1.input) (ok_injective h))
  read_sorted-IsCanonical (suc count) index previous d items d' bytes h =
      let ((x, d₁), read, run) = and_then-ok (nested decode d) _ (items, d') h in
      let same = nested-IsCanonical d x d₁ bytes read in
      let step = sym (read_sorted-step count index previous d d₁ x read same) ∙ h in
      let (sorted, next) = guard-inv (is_unsorted previous (encode x)) _ _ (items, d') step in
      let ((xs, d₂), others, joined) =
        and_then-ok (read_sorted decode count (index + 1) (some (encode x)) d₁) _ (items, d')
          next in
      let bytes_left = All-append_right (encode x) d₁.input (subst (All IsByte) same bytes) in
      let (size, checked, written) =
        read_sorted-IsCanonical count (index + 1) (some (encode x)) d₁ xs d₂ bytes_left others in
      let list = ap (λ r. r.0) (ok_injective joined) in
      let left = ap (λ r. r.1.input) (ok_injective joined) in
      subst (IsWritten (suc count) index previous d.input d'.input) list (
        ap suc size,
        check_set-cons previous index x xs sorted checked,
        same
            ∙ ap (λ r. encode x ++ r) (written ∙ ap (λ r. write_items encode xs ++ r) left)
            ∙ sym (append_assoc (encode x) (write_items encode xs) d'.input),
      )

  pub read_set-IsCanonical :
      (d : Decoder) (items : List A) (d' : Decoder)
      → All IsByte d.input
      → read_set decode d ≡ ok (items, d')
      → (bytes : List ℕ) × (write_set encode items ≡ ok bytes)
        × (d.input ≡ bytes ++ d'.input)
        × (length items ≤ max_seq_len)
  unfolding read_set write_set write_seq
  read_set-IsCanonical d items d' bytes h =
      let ((count, d₁), read, run) = and_then-ok (read_length max_seq_len d) _ (items, d') h in
      let (declared, bound) = read_length-inv max_seq_len count d d₁ read in
      let (fits, prefix) = read_varint-IsCanonical d count d₁ bytes declared in
      let bytes_left =
        All-append_right (write_varint count) d₁.input (subst (All IsByte) prefix bytes) in
      let (size, checked, written) =
        read_sorted-IsCanonical count 0 none d₁ items d' bytes_left run in
      (
        write_seq encode items,
        rw checked refl,
        prefix
            ∙ ap (λ n. write_varint n ++ d₁.input) (sym size)
            ∙ ap (λ r. write_varint (length items) ++ r) written
            ∙ sym (append_assoc (write_varint (length items)) (write_items encode items) d'.input),
        omega (arith, size, bound),
      )
