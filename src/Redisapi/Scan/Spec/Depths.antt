-- ===== src/Redisapi/Scan/Spec/Depths.antt =====
-- The fields of a name in a struct of redisapi/scan.go, by the depth of the struct that they are in.
use grab_redis.Base.{
  ℕ, ◌^◌, ◌<◌, ◌≡◌, ◌≢◌, refl, ap, subst, ◌∙◌, Bool, true, false, ◌&&◌, Bool-cases, Option, none,
  some, List, [], ◌∷◌, ◌++◌, length, All, append-nil, arith, ◌==◌, ==-cases, ==_refl, nat_eq,
  if◌then◌else◌, inl, inr,
}
use grab_redis.Base.Text.{Str, str_eq}
use grab_redis.Redisapi.Scan.Spec.{FieldSpec}
use grab_redis.Redisapi.Scan.Spec.Listed.{Named}

-- The depth of a field, and the fields of a name at a depth.
abbrev pub depth_in : Named → ℕ
depth_in g = length g.at

unfoldable pub at_depth : Str → ℕ → List Named → List Named
at_depth name d [] = []
at_depth name d (g ∷ gs) =
    if (g.label == name) && (depth_in g == d) then g ∷ at_depth name d gs else at_depth name d gs

abbrev pub spec_named : Named → FieldSpec
spec_named g = record { name = g.label; index = g.at ++ (g.number ∷ []); omit_empty = g.omit }

-- The one field there is, if there is one.
abbrev pub sole : List Named → Option FieldSpec
sole [] = none
sole (g ∷ []) = some (spec_named g)
sole (g ∷ h ∷ gs) = none

-- The least depth at which the name stands.
abbrev pub IsLeast : Str → ℕ → List Named → Type 0
IsLeast name d gs = ((d' : ℕ) → d' < d → at_depth name d' gs ≡ []) × (at_depth name d gs ≢ [])

at_depth-append :
    (name : Str) (d : ℕ) (gs hs : List Named)
    → at_depth name d (gs ++ hs) ≡ at_depth name d gs ++ at_depth name d hs
unfolding at_depth
at_depth-append name d [] hs = refl
at_depth-append name d (g ∷ gs) hs = elim (Bool-cases ((g.label == name) && (depth_in g == d))) [
  | inl e ↦ rw e (ap (λ l. g ∷ l) (at_depth-append name d gs hs))
  | inr e ↦ rw e (at_depth-append name d gs hs)
]

-- One field more, of another name or depth, or of this one.
pub at_depth-other :
    (name : Str) (d : ℕ) (gs : List Named) (g : Named)
    → ((g.label == name) && (depth_in g == d)) ≡ false
    → at_depth name d (gs ++ (g ∷ [])) ≡ at_depth name d gs
unfolding at_depth
at_depth-other name d gs g e =
    at_depth-append name d gs (g ∷ []) ∙ rw e (append-nil (at_depth name d gs))

pub at_depth-same :
    (name : Str) (d : ℕ) (gs : List Named) (g : Named)
    → ((g.label == name) && (depth_in g == d)) ≡ true
    → at_depth name d (gs ++ (g ∷ [])) ≡ at_depth name d gs ++ (g ∷ [])
unfolding at_depth
at_depth-same name d gs g e = at_depth-append name d gs (g ∷ []) ∙ rw e refl

pub sole-more : (gs : List Named) (g : Named) → gs ≢ [] → sole (gs ++ (g ∷ [])) ≡ none
sole-more [] g h = absurd (h refl)
sole-more (x ∷ []) g h = refl
sole-more (x ∷ y ∷ gs) g h = refl

pub append-ne : (gs : List Named) (g : Named) → gs ++ (g ∷ []) ≢ []
append-ne [] g h = ground arith
append-ne (x ∷ gs) g h = ground arith

-- Whether a field stands in the list of a name and a depth.
and-false : (b : Bool) → (b && false) ≡ false
and-false true = refl
and-false false = refl

pub other_depth :
    (name : Str) (g : Named) (d : ℕ)
    → depth_in g ≢ d
    → ((g.label == name) && (depth_in g == d)) ≡ false
other_depth name g d h = elim (==-cases (depth_in g) d) [
  | inl (e, same) ↦ absurd (h same)
  | inr e ↦ rw e (and-false (g.label == name))
]

pub own_depth : (g : Named) → ((g.label == g.label) && (depth_in g == depth_in g)) ≡ true
own_depth g = rw (==_refl g.label) (==_refl (depth_in g))

-- A name stands at the depth of a field.
pub at_depth-bound :
    (name : Str) (d : ℕ) (gs : List Named)
    → All (λ g. depth_in g < 2 ^ 30) gs
    → at_depth name d gs ≢ []
    → d < 2 ^ 30
unfolding at_depth
at_depth-bound name d [] small h = absurd (h refl)
at_depth-bound name d (g ∷ gs) (s, small) h = elim (==-cases (depth_in g) d) [
  | inl (e, same) ↦ subst (λ k. k < 2 ^ 30) same s
  | inr e ↦
      at_depth-bound name d gs small
        (λ none_there. h (rw e (rw (and-false (g.label == name)) none_there)))
]
