-- ===== src/Types/Name/Grammar.antt =====
-- The grammar of names, as an automaton that reads one character at a time.
use vanargand.Common.{
  ℕ, ◌≤◌, ◌<◌, ◌≡◌, ◌⊎◌, ◌↔◌, ◌∙◌, refl, sym, ap, Bool, true, false, List, [], ◌∷◌, ok, arith, none,
  Option-cases, inl, inr,
}
use vanargand.Common.Lists.{length}
use vanargand.Types.Name.{
  new_name, allowed, first_bad, starts_with_hyphen, ends_with_hyphen, contains_double,
}

-- `a` to `z`, or `0` to `9`
abbrev pub IsLetterOrDigit : ℕ → Type 0
IsLetterOrDigit c = ((97 ≤ c) × (c ≤ 122)) ⊎ ((48 ≤ c) × (c ≤ 57))

-- What may follow: the flag says that the character before it was a letter or a digit, and only
-- then may a hyphen, which is 45, or the end come.
abbrev pub IsLabel : Bool → List ℕ → Type 0
IsLabel after_letter [] = after_letter ≡ true
IsLabel after_letter (c ∷ cs) =
    (IsLetterOrDigit c × IsLabel true cs) ⊎ ((c ≡ 45) × (after_letter ≡ true) × IsLabel false cs)

allowed_cases : (c : ℕ) → allowed c ≡ true → IsLetterOrDigit c ⊎ (c ≡ 45)
unfolding allowed
allowed_cases c h = ground arith

-- What the tests of `new_name` say of the rest of a text.
abbrev HasPassed : Bool → List ℕ → Type 0
HasPassed after_letter text =
    (first_bad text ≡ none)
    × (ends_with_hyphen text ≡ false)
    × (contains_double text ≡ false)
    × ((after_letter ≡ true) ⊎ ((starts_with_hyphen text ≡ false) × (0 < length text)))

first_allowed :
    (c : ℕ) (cs : List ℕ) → first_bad (c ∷ cs) ≡ none → (allowed c ≡ true) × (first_bad cs ≡ none)
unfolding first_bad
first_allowed c cs h = ground arith

letter_tail :
    (h : Bool) (c : ℕ) (cs : List ℕ) → IsLetterOrDigit c → HasPassed h (c ∷ cs) → HasPassed true cs
unfolding first_bad ends_with_hyphen contains_double
letter_tail h c [] l (good, ends, double, start) = (refl, refl, refl, inl refl)
letter_tail h c (d ∷ cs) l (good, ends, double, start) =
    ((first_allowed c (d ∷ cs) good).1, ends, ground arith, inl refl)

hyphen_tail :
    (h : Bool) (c : ℕ) (cs : List ℕ)
    → c ≡ 45
    → HasPassed h (c ∷ cs)
    → (h ≡ true) × HasPassed false cs
unfolding starts_with_hyphen ends_with_hyphen contains_double
hyphen_tail h c [] e (good, ends, double, start) = absurd (ground arith)
hyphen_tail h c (d ∷ cs) e (good, ends, double, start) = (
  ground arith,
  ((first_allowed c (d ∷ cs) good).1, ends, ground arith, inr (ground arith, omega arith)),
)

passed-IsLabel : (h : Bool) (text : List ℕ) → HasPassed h text → IsLabel h text
passed-IsLabel h [] (good, ends, double, inl after) = after
passed-IsLabel h [] (good, ends, double, inr (start, some_char)) = absurd (omega (arith, some_char))
passed-IsLabel h (c ∷ cs) p = elim (allowed_cases c (first_allowed c cs p.0).0) [
  | inl letter ↦ inl (letter, passed-IsLabel true cs (letter_tail h c cs letter p))
  | inr hyphen ↦
      let (after, rest) = hyphen_tail h c cs hyphen p in
      inr (hyphen, after, passed-IsLabel false cs rest)
]

letter_first :
    (h : Bool) (c : ℕ) (cs : List ℕ) → IsLetterOrDigit c → HasPassed true cs → HasPassed h (c ∷ cs)
unfolding first_bad allowed starts_with_hyphen ends_with_hyphen contains_double
letter_first h c [] l (good, ends, double, start) =
    (ground arith, ground arith, refl, inr (ground arith, omega arith))
letter_first h c (d ∷ cs) l (good, ends, double, start) =
    (ground arith, ends, ground arith, inr (ground arith, omega arith))

hyphen_first :
    (h : Bool) (c : ℕ) (cs : List ℕ) → c ≡ 45 → h ≡ true → HasPassed false cs → HasPassed h (c ∷ cs)
unfolding first_bad allowed starts_with_hyphen ends_with_hyphen contains_double
hyphen_first h c [] e after (good, ends, double, start) = absurd (ground arith)
hyphen_first h c (d ∷ cs) e after (good, ends, double, start) =
    (ground arith, ends, ground arith, inl after)

label-HasPassed : (h : Bool) (text : List ℕ) → IsLabel h text → HasPassed h text
unfolding first_bad ends_with_hyphen contains_double
label-HasPassed h [] p = (refl, refl, refl, inl p)
label-HasPassed h (c ∷ cs) (inl (letter, rest)) =
    letter_first h c cs letter (label-HasPassed true cs rest)
label-HasPassed h (c ∷ cs) (inr (hyphen, after, rest)) =
    hyphen_first h c cs hyphen after (label-HasPassed false cs rest)

accepted-HasPassed :
    (text name : List ℕ)
    → new_name text ≡ ok name
    → (name ≡ text) × (length text ≤ 32) × HasPassed false text
unfolding new_name
accepted-HasPassed text name h = elim (Option-cases (first_bad text)) [
  | inl good ↦ (
    ground (arith, good),
    ground (arith, good),
    (
      good,
      ground (arith, good),
      ground (arith, good),
      inr (ground (arith, good), ground (arith, good)),
    ),
  )
  | inr (c, bad) ↦ absurd (ground (arith, bad))
]

HasPassed-accepted :
    (text : List ℕ) → length text ≤ 32 → HasPassed false text → new_name text ≡ ok text
unfolding new_name
HasPassed-accepted text l (good, ends, double, start) = ground (arith, good)

-- A text is accepted as a name exactly when it is lower-case letters, digits and hyphens, begins
-- and ends with a letter or a digit, has no two hyphens in a row, and is at most 32 characters
-- long; the name is then the text itself, never a normalised form.
pub new_name_iff :
    (text name : List ℕ)
    → (new_name text ≡ ok name) ↔ ((name ≡ text) × (length text ≤ 32) × IsLabel false text)
new_name_iff text name = (
  λ h.
      let (same, short, passed) = accepted-HasPassed text name h in
      (same, short, passed-IsLabel false text passed),
  λ g. HasPassed-accepted text g.1 (label-HasPassed false text g.2) ∙ ap ok (sym g.0),
)
