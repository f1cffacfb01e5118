-- ===== src/Base/Text.antt =====
-- Go strings as sequences of bytes, with the bytewise order of `sort.Strings`.
use Prim.Native.Nat.{ℕ}
use Prim.Native.Char.{code}
use Prim.Native.String.{String}
use mathlib.Core.Path.{◌≡◌, refl}
use mathlib.Core.Bool.{Bool, true, false}
use mathlib.Core.List.{List, [], ◌∷◌, ◌++◌, List-discrete}
use mathlib.Core.HLevel.{hedberg}
use native.Mathlib.Omega.{arith}
use native.Mathlib.Decide.{ℕ_discrete}
use grab_redis.Base.Tests.{ltb, nat_beq, if◌then◌else◌}
use grab_redis.Base.Sort.{Order}
use grab_redis.Base.Eq.{Equality, nat_eq, list_beq, list_beq_iff}
use mathlib.Core.Logic.{◌↔◌}

abbrev pub Str : Type 0
Str = List ℕ

-- A literal: the bytes of an ASCII text.
abbrev pub str : String → Str
str String.[] = []
str (String.◌∷◌ c s) = code c ∷ str s

unfoldable pub str_leb : Str → Str → Bool
str_leb [] t = true
str_leb (x ∷ s) [] = false
str_leb (x ∷ s) (y ∷ t) = if nat_beq x y then str_leb s t else ltb x y

pub str_leb_total : (s t : Str) → str_leb s t ≡ false → str_leb t s ≡ true
unfolding str_leb
str_leb_total [] t h = cc
str_leb_total (x ∷ s) [] h = refl
str_leb_total (x ∷ s) (y ∷ t) h = ground (arith, str_leb_total s t)

pub str_leb_trans : (s t u : Str) → str_leb s t ≡ true → str_leb t u ≡ true → str_leb s u ≡ true
unfolding str_leb
str_leb_trans [] t u h k = refl
str_leb_trans (x ∷ s) [] u h k = cc
str_leb_trans (x ∷ s) (y ∷ t) [] h k = cc
str_leb_trans (x ∷ s) (y ∷ t) (z ∷ u) h k = ground (arith, str_leb_trans s t u)

pub str_leb_antisymm : (s t : Str) → str_leb s t ≡ true → str_leb t s ≡ true → s ≡ t
unfolding str_leb
str_leb_antisymm [] [] h k = refl
str_leb_antisymm [] (y ∷ t) h k = cc
str_leb_antisymm (x ∷ s) [] h k = cc
str_leb_antisymm (x ∷ s) (y ∷ t) h k = ground (arith, str_leb_antisymm s t)

pub Str-set : IsSet Str
Str-set = hedberg (List-discrete ℕ_discrete)

instance abbrev pub str_order : Order Str
str_order = record {
  le = str_leb;
  total = str_leb_total;
  trans = str_leb_trans;
  antisymm = str_leb_antisymm;
  is_set = Str-set;
}

-- `strings.HasPrefix`
unfoldable pub has_prefix : Str → Str → Bool
has_prefix s [] = true
has_prefix [] (y ∷ t) = false
has_prefix (x ∷ s) (y ∷ t) = if nat_beq x y then has_prefix s t else false

-- `strings.Contains`
unfoldable pub contains : Str → Str → Bool
unfolding has_prefix
contains [] t = has_prefix [] t
contains (x ∷ s) t = if has_prefix (x ∷ s) t then true else contains s t

-- `strings.Join`
unfoldable pub join : Str → List Str → Str
join sep [] = []
join sep (s ∷ []) = s
join sep (s ∷ t ∷ r) = s ++ (sep ++ join sep (t ∷ r))

-- Kept shut, so that a test on two texts stays a test.
unfoldable pub str_beq : Str → Str → Bool
str_beq = list_beq

pub str_beq_iff : (s t : Str) → (str_beq s t ≡ true) ↔ (s ≡ t)
unfolding str_beq
str_beq_iff = list_beq_iff

instance abbrev pub str_eq : Equality Str
str_eq = record { equal = str_beq; equal_iff = str_beq_iff }
