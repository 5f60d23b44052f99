-- ===== src/Types/Name.antt =====
-- vanargand-types/src/name.rs: names and tickers, as their ASCII bytes.
pub mod Grammar
use vanargand.Common.{
  ℕ, ◌≤◌, ◌≡◌, Bool, true, false, List, [], ◌∷◌, ltb, leb, ◌==◌, ◌&&◌, ◌||◌, if◌then◌else◌, Result,
  ok, err, arith, Option, none, some, Option-cases, inl, inr,
}
use vanargand.Common.Lists.{length, All}

abbrev pub Name : Type 0
Name = List ℕ

pub data NameSyntax : Type 0 where
  bad_length : ℕ → NameSyntax
  bad_character : ℕ → NameSyntax
  edge_hyphen double_hyphen : NameSyntax

abbrev pub min_name_len : ℕ
min_name_len = 1

abbrev pub max_name_len : ℕ
max_name_len = 32

abbrev pub premium_name_len : ℕ
premium_name_len = 6

unfoldable pub allowed : ℕ → Bool
allowed c = (leb b'a' c && leb c b'z') || (leb b'0' c && leb c b'9') || (c == b'-')

unfoldable pub first_bad : List ℕ → Option ℕ
first_bad [] = none
first_bad (c ∷ cs) = if allowed c then first_bad cs else some c

unfoldable pub starts_with_hyphen : List ℕ → Bool
starts_with_hyphen [] = false
starts_with_hyphen (c ∷ cs) = c == b'-'

unfoldable pub ends_with_hyphen : List ℕ → Bool
ends_with_hyphen [] = false
ends_with_hyphen (c ∷ []) = c == b'-'
ends_with_hyphen (c ∷ d ∷ cs) = ends_with_hyphen (d ∷ cs)

unfoldable pub contains_double : List ℕ → Bool
contains_double [] = false
contains_double (c ∷ []) = false
contains_double (c ∷ d ∷ cs) = (c == b'-' && d == b'-') || contains_double (d ∷ cs)

-- `Name::new` on an ASCII text, given as its bytes.
unfoldable pub new_name : List ℕ → Result NameSyntax Name
unfolding allowed first_bad starts_with_hyphen ends_with_hyphen contains_double
new_name text =
    if ltb (length text) min_name_len || ltb max_name_len (length text)
    then err (bad_length (length text))
    else elim (first_bad text) [
      | some c ↦ err (bad_character c)
      | none ↦
          if starts_with_hyphen text || ends_with_hyphen text
          then err edge_hyphen
          else if contains_double text
          then err double_hyphen
          else ok text
    ]

unfoldable pub is_premium : Name → Bool
is_premium name = ltb (length name) premium_name_len
