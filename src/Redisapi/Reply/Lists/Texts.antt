-- ===== src/Redisapi/Reply/Lists/Texts.antt =====
-- `Strings` and `ByteSlices` of redisapi/reply.go: which arrays they read, and what they make of
-- them.
use grab_redis.Base.{◌≡◌, ◌↔◌, refl, ap, Option, none, some, List, [], ◌∷◌, map, All, arith}
use grab_redis.Base.Text.{Str}
use grab_redis.Redisapi.Reply.{values, bytes}
use grab_redis.Redisapi.Reply.Lists.{to_string, strings_from, strings, slices_from, byte_slices}
use grab_redis.Redisapi.Value.{
  Value, null, integer, bulk, simple, array, other, of_list, to_list-of_list,
}

-- nil, or a bulk or simple string
abbrev pub IsText : Value → Type 0
IsText null = Unit
IsText (bulk s) = Unit
IsText (simple s) = Unit
IsText _ = ⊥

-- The text of an element: none for nil.
abbrev pub text_of : Value → Option Str
text_of (bulk s) = some s
text_of (simple s) = some s
text_of _ = none

abbrev pub or_empty_text : Option Str → Str
or_empty_text none = []
or_empty_text (some s) = s

strings_from-map :
    (vs : List Value)
    → All IsText vs
    → strings_from vs ≡ (map (λ v. or_empty_text (text_of v)) vs, none)
unfolding strings_from to_string
strings_from-map [] h = refl
strings_from-map (null ∷ vs) (h, hs) = rw (strings_from-map vs hs) (rw (strings_from-map vs hs))
strings_from-map (bulk s ∷ vs) (h, hs) = rw (strings_from-map vs hs) (rw (strings_from-map vs hs))
strings_from-map (simple s ∷ vs) (h, hs) = rw (strings_from-map vs hs) (rw (strings_from-map vs hs))
strings_from-map (integer n ∷ vs) (h, hs) = elim h [ ]
strings_from-map (array n ∷ vs) (h, hs) = elim h [ ]
strings_from-map (other n ∷ vs) (h, hs) = elim h [ ]

slices_from-map : (vs : List Value) → All IsText vs → slices_from vs ≡ (map text_of vs, none)
unfolding slices_from bytes
slices_from-map [] h = refl
slices_from-map (null ∷ vs) (h, hs) = rw (slices_from-map vs hs) (rw (slices_from-map vs hs))
slices_from-map (bulk s ∷ vs) (h, hs) = rw (slices_from-map vs hs) (rw (slices_from-map vs hs))
slices_from-map (simple s ∷ vs) (h, hs) = rw (slices_from-map vs hs) (rw (slices_from-map vs hs))
slices_from-map (integer n ∷ vs) (h, hs) = elim h [ ]
slices_from-map (array n ∷ vs) (h, hs) = elim h [ ]
slices_from-map (other n ∷ vs) (h, hs) = elim h [ ]

strings_from-All : (vs : List Value) → (strings_from vs).1 ≡ none → All IsText vs
unfolding strings_from to_string
strings_from-All [] h = tt
strings_from-All (null ∷ vs) h = ground (arith, strings_from-All vs)
strings_from-All (bulk s ∷ vs) h = ground (arith, strings_from-All vs)
strings_from-All (simple s ∷ vs) h = ground (arith, strings_from-All vs)
strings_from-All (integer n ∷ vs) h = cc
strings_from-All (array n ∷ vs) h = cc
strings_from-All (other n ∷ vs) h = cc

slices_from-All : (vs : List Value) → (slices_from vs).1 ≡ none → All IsText vs
unfolding slices_from bytes
slices_from-All [] h = tt
slices_from-All (null ∷ vs) h = ground (arith, slices_from-All vs)
slices_from-All (bulk s ∷ vs) h = ground (arith, slices_from-All vs)
slices_from-All (simple s ∷ vs) h = ground (arith, slices_from-All vs)
slices_from-All (integer n ∷ vs) h = cc
slices_from-All (array n ∷ vs) h = cc
slices_from-All (other n ∷ vs) h = cc

-- `Strings` and `ByteSlices` accept exactly the same arrays, those of nils and texts. They return
-- every text in its place; a nil element is the empty text for one and a nil slice for the other.
pub strings_iff :
    (vs : List Value)
    → (((strings (array (of_list vs)) none).1 ≡ none) ↔ All IsText vs)
      × (((byte_slices (array (of_list vs)) none).1 ≡ none) ↔ All IsText vs)
      × (All IsText vs
          → strings (array (of_list vs)) none ≡ (map (λ v. or_empty_text (text_of v)) vs, none))
      × (All IsText vs → byte_slices (array (of_list vs)) none ≡ (map text_of vs, none))
unfolding strings byte_slices values
strings_iff vs = rw (to_list-of_list vs) (
  (strings_from-All vs, λ h. ap (λ r. r.1) (strings_from-map vs h)),
  (slices_from-All vs, λ h. ap (λ r. r.1) (slices_from-map vs h)),
  strings_from-map vs,
  slices_from-map vs,
)
