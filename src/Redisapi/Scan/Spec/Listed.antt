-- ===== src/Redisapi/Scan/Spec/Listed.antt =====
-- `compileStructSpec` of redisapi/scan.go as one pass over the list of the fields that it meets.
use grab_redis.Base.{
  ℕ, suc, ◌≡◌, refl, ap, sym, ◌∙◌, Bool, true, false, not, ◌&&◌, Option, none, some, List, [], ◌∷◌,
  ◌++◌, foldl, foldl-append, if◌then◌else◌,
}
use grab_redis.Base.Text.{Str}
use grab_redis.Redisapi.Scan.Dest.{
  Dest, Fields, FieldInfo, struct_dest, int_dest, uint_dest, float_dest, bool_dest, string_dest,
  slice_dest, iface_dest, nil_ptr, ptr, other_dest, no_more, field,
}
use grab_redis.Redisapi.Scan.Spec.{
  StructSpec, Tag, skipped, unknown, tagged, tag_of, add_field, named_field, compile,
  compile_embedded,
}

-- A field with a name for replies: the struct that it is in, by its path, and its number there.
pub record Named : Type 0 where
  pub label : Str
  pub omit : Bool
  pub at : List ℕ
  pub number : ℕ

abbrev pub both : Option (List Named) → Option (List Named) → Option (List Named)
both none b = none
both (some xs) none = none
both (some xs) (some ys) = some (xs ++ ys)

abbrev pub of_tag : List ℕ → ℕ → Tag → Option (List Named)
of_tag at i skipped = some []
of_tag at i unknown = none
of_tag at i (tagged name omit) =
    some (record { label = name; omit = omit; at = at; number = i } ∷ [])

unfoldable mutual
  -- The exported fields of a struct, and those of the structs embedded in it, in the order of their
  -- declaration; none if a tag has an unknown option.
  pub all_fields : {F : Type 0} → Fields F → ℕ → List ℕ → Option (List Named)
  all_fields no_more i at = some []
  all_fields (field info d rest) i at =
      both
        (if not info.exported && not info.anonymous
          then some []
          else if info.anonymous
          then all_embedded d (at ++ (i ∷ []))
          else of_tag at i (tag_of info))
        (all_fields rest (suc i) at)

  pub all_embedded : {F : Type 0} → Dest F → List ℕ → Option (List Named)
  all_embedded (struct_dest fields) at = all_fields fields 0 at
  all_embedded d at = some []

abbrev pub add_named : StructSpec → Named → StructSpec
add_named ss g = add_field g.label g.omit g.at g.number ss

abbrev pub fold_named : StructSpec → Option (List Named) → Option StructSpec
fold_named ss none = none
fold_named ss (some gs) = some (foldl add_named ss gs)

bind-fold :
    (a b : Option (List Named)) (ss : StructSpec) (k : StructSpec → Option StructSpec)
    → ((ss' : StructSpec) → k ss' ≡ fold_named ss' b)
    → (elim (fold_named ss a) [ none ↦ none | some ss' ↦ k ss' ]) ≡ fold_named ss (both a b)
bind-fold none b ss k h = refl
bind-fold (some xs) none ss k h = h (foldl add_named ss xs)
bind-fold (some xs) (some ys) ss k h =
    h (foldl add_named ss xs) ∙ ap (λ r. some r) (sym (foldl-append add_named ss xs ys))

if-fold :
    (c : Bool) (a b : Option StructSpec) (gs hs : Option (List Named)) (ss : StructSpec)
    → a ≡ fold_named ss gs
    → b ≡ fold_named ss hs
    → (if c then a else b) ≡ fold_named ss (if c then gs else hs)
if-fold true a b gs hs ss h h' = h
if-fold false a b gs hs ss h h' = h'

named_field-fold :
    (info : FieldInfo) (at : List ℕ) (i : ℕ) (ss : StructSpec)
    → named_field info at i ss ≡ fold_named ss (of_tag at i (tag_of info))
unfolding named_field
named_field-fold info at i ss = by_tag (tag_of info)
  where
    by_tag :
        (t : Tag)
        → (elim t [
          | skipped ↦ some ss
          | unknown ↦ none
          | tagged name omit ↦ some (add_field name omit at i ss)
        ])
          ≡ fold_named ss (of_tag at i t)
    by_tag skipped = refl
    by_tag unknown = refl
    by_tag (tagged name omit) = refl

mutual
  unfolding compile all_fields

  -- The pass over the fields is a fold over their list.
  pub compile-fold :
      {F : Type 0} (fields : Fields F) (i : ℕ) (at : List ℕ) (ss : StructSpec)
      → compile fields i at ss ≡ fold_named ss (all_fields fields i at)
  compile-fold no_more i at ss = refl
  compile-fold (field info d rest) i at ss =
      ap (λ r. elim r [ none ↦ none | some ss' ↦ compile rest (suc i) at ss' ])
        (if-fold (not info.exported && not info.anonymous) _ _ _ _ ss refl (
          if-fold info.anonymous _ _ _ _ ss (compile_embedded-fold d (at ++ (i ∷ [])) ss)
            (named_field-fold info at i ss)))
      ∙ bind-fold _ (all_fields rest (suc i) at) ss (λ ss'. compile rest (suc i) at ss')
          (λ ss'. compile-fold rest (suc i) at ss')

  pub compile_embedded-fold :
      {F : Type 0} (d : Dest F) (at : List ℕ) (ss : StructSpec)
      → compile_embedded d at ss ≡ fold_named ss (all_embedded d at)
  compile_embedded-fold (struct_dest fields) at ss = compile-fold fields 0 at ss
  compile_embedded-fold (int_dest b x) at ss = refl
  compile_embedded-fold (uint_dest b x) at ss = refl
  compile_embedded-fold (float_dest b x) at ss = refl
  compile_embedded-fold (bool_dest x) at ss = refl
  compile_embedded-fold (string_dest x) at ss = refl
  compile_embedded-fold (slice_dest z ds es) at ss = refl
  compile_embedded-fold (iface_dest x) at ss = refl
  compile_embedded-fold (nil_ptr x) at ss = refl
  compile_embedded-fold (ptr x) at ss = refl
  compile_embedded-fold (other_dest x b) at ss = refl
