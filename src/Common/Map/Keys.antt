-- ===== src/Common/Map/Keys.antt =====
-- The key types of the program: identifiers and digests (32 bytes read as one number, which
-- compares as the bytes do), texts, and an optional asset, whose absence sorts first.
use Prim.Native.Nat.{ℕ}
use mathlib.Core.Path.{◌≡◌}
use mathlib.Core.Logic.{◌↔◌}
use mathlib.Core.Bool.{Bool, true, false, ◌&&◌, ◌||◌}
use mathlib.Core.Option.{Option, none, some}
use mathlib.Core.List.{List, [], ◌∷◌}
use native.Mathlib.Omega.{arith}
use vanargand.Common.Tests.{ltb, ◌==◌, ==_iff}
use vanargand.Common.Map.{Key}

abbrev nat_less : ℕ → ℕ → Bool
nat_less a b = ltb a b

abbrev nat_same : ℕ → ℕ → Bool
nat_same a b = a == b

instance abbrev pub nat_key : Key ℕ
nat_key = record { less = nat_less; same = nat_same; same_iff = ==_iff }

abbrev pub option_less : Option ℕ → Option ℕ → Bool
option_less none none = false
option_less none (some b) = true
option_less (some a) none = false
option_less (some a) (some b) = ltb a b

abbrev pub option_same : Option ℕ → Option ℕ → Bool
option_same none none = true
option_same none (some b) = false
option_same (some a) none = false
option_same (some a) (some b) = a == b

pub option_same_iff : (a b : Option ℕ) → (option_same a b ≡ true) ↔ (a ≡ b)
option_same_iff none none = ground arith
option_same_iff none (some b) = ground arith
option_same_iff (some a) none = ground arith
option_same_iff (some a) (some b) = ground arith

instance abbrev pub option_key : Key (Option ℕ)
option_key = record { less = option_less; same = option_same; same_iff = option_same_iff }

-- Bytes compare from the left, and a proper prefix sorts first.
abbrev pub bytes_less : List ℕ → List ℕ → Bool
bytes_less [] [] = false
bytes_less [] (b ∷ bs) = true
bytes_less (a ∷ as') [] = false
bytes_less (a ∷ as') (b ∷ bs) = ltb a b || (a == b && bytes_less as' bs)

abbrev pub bytes_same : List ℕ → List ℕ → Bool
bytes_same [] [] = true
bytes_same [] (b ∷ bs) = false
bytes_same (a ∷ as') [] = false
bytes_same (a ∷ as') (b ∷ bs) = a == b && bytes_same as' bs

pub bytes_same_iff : (a b : List ℕ) → (bytes_same a b ≡ true) ↔ (a ≡ b)
bytes_same_iff [] [] = ground arith
bytes_same_iff [] (b ∷ bs) = ground arith
bytes_same_iff (a ∷ as') [] = ground arith
bytes_same_iff (a ∷ as') (b ∷ bs) = ground (arith, bytes_same_iff as' bs)

instance abbrev pub bytes_key : Key (List ℕ)
bytes_key = record { less = bytes_less; same = bytes_same; same_iff = bytes_same_iff }
