-- ===== src/Types/Codec/Truncated.antt =====
-- A number that is cut short is an error, never another number.
use vanargand.Common.{
  ℕ, zero, suc, ◌+◌, ◌*◌, ◌/◌, ◌%◌, ◌^◌, ◌<◌, ◌≡◌, refl, sym, ap, subst, ◌∙◌, List, [], ◌∷◌, ◌++◌,
  err, arith, lt_cases, inl, inr,
}
use vanargand.Common.Lists.{length}
use vanargand.Types.Amount.{u64_bound}
use vanargand.Types.Codec.{unexpected_end, write_groups, write_varint, read_groups, read_varint}
use vanargand.Types.Codec.Varint.{
  read_groups-more, write_groups-last, write_groups-more, first_fits, others_fit, last_group,
}

head_or : ℕ → List ℕ → ℕ
head_or d [] = d
head_or d (x ∷ xs) = x

tail_of : List ℕ → List ℕ
tail_of [] = []
tail_of (x ∷ xs) = xs

cons_injective : (x y : ℕ) (xs ys : List ℕ) → x ∷ xs ≡ y ∷ ys → (x ≡ y) × (xs ≡ ys)
unfolding head_or tail_of
cons_injective x y xs ys h = (ap (head_or 0) h, ap tail_of h)

one_byte : (v b : ℕ) (fs back : List ℕ) → v ∷ [] ≡ b ∷ (fs ++ back) → length back ≡ 0
one_byte v b [] back h = ap length (sym (cons_injective v b [] back h).1)
one_byte v b (f ∷ fs) back h = absurd (ground (arith, ap length h))

read_groups-cut :
    (fuel n shift value v : ℕ) (front back : List ℕ)
    → n + fuel ≡ 9
    → shift ≡ 7 * n
    → v * 2 ^ shift < u64_bound
    → write_groups fuel v ≡ front ++ back
    → 0 < length back
    → read_groups n shift value front ≡ err unexpected_end
unfolding read_groups
read_groups-cut fuel n shift value v [] back h s f w b = refl
read_groups-cut zero n shift value v (x ∷ fs) back h s f w b =
    let small = last_group v shift n h s f in
    let none_left = one_byte v x fs back (sym (write_groups-last zero v small) ∙ w) in
    absurd (omega (arith, none_left, b))
read_groups-cut (suc fuel) n shift value v (x ∷ fs) back h s f w b = elim (lt_cases v 128) [
  | inl small ↦
      let none_left = one_byte v x fs back (sym (write_groups-last (suc fuel) v small) ∙ w) in
      absurd (omega (arith, none_left, b))
  | inr large ↦
      let (same, rest) =
        cons_injective (v % 128 + 128) x (write_groups fuel (v / 128)) (fs ++ back)
          (sym (write_groups-more fuel v large) ∙ w) in
      let low : x % 128 ≡ v % 128 = omega (arith, same) in
      let fits : x % 128 * 2 ^ shift < u64_bound =
        subst (λ y. y * 2 ^ shift < u64_bound) (sym low) (first_fits v (2 ^ shift) f) in
      read_groups-more n shift value x fs (omega arith) s fits (omega (arith, same))
      ∙ read_groups-cut fuel (n + 1) (shift + 7) (value + x % 128 * 2 ^ shift) (v / 128) fs back
          (omega arith) (omega arith) (others_fit v shift f).0 rest b
]

write_varint-groups : (v : ℕ) → write_varint v ≡ write_groups 9 v
unfolding write_varint
write_varint-groups v = refl

-- The encoding of a number of 64 bits that is cut short by at least one byte, even to nothing, is
-- refused for the end of the input.
pub read_varint-cut :
    (v : ℕ) (front back : List ℕ) (depth : ℕ)
    → v < u64_bound
    → write_varint v ≡ front ++ back
    → 0 < length back
    → read_varint (record { input = front; depth = depth }) ≡ err unexpected_end
unfolding read_varint
read_varint-cut v front back depth h w b =
    let cut =
      read_groups-cut 9 0 0 0 v front back refl refl (omega (arith, h))
        (sym (write_varint-groups v) ∙ w) b in
    rw cut refl
