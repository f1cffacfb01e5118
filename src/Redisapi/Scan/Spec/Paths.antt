-- ===== src/Redisapi/Scan/Spec/Paths.antt =====
-- The field paths that `compileStructSpec` of redisapi/scan.go collects, followed by `FieldByIndex`.
use grab_redis.Base.{
  ℕ, suc, ◌+◌, ◌≡◌, refl, ap, sym, ◌∙◌, Bool, true, false, Bool-cases, not, ◌&&◌, Option, none,
  some, List, [], ◌∷◌, ◌++◌, length, All, append_assoc, append-nil, subst, some-injective,
  none-ne-some, arith, ltb, ◌==◌, nat_eq, if◌then◌else◌, inl, inr,
}
use grab_redis.Base.Text.{Str, str_eq}
use grab_redis.Redisapi.Reply.Maps.{insert}
use grab_redis.Redisapi.Scan.Dest.{
  Dest, Fields, FieldInfo, struct_dest, int_dest, uint_dest, float_dest, bool_dest, string_dest,
  slice_dest, iface_dest, nil_ptr, ptr, other_dest, no_more, field,
}
use grab_redis.Redisapi.Scan.Spec.{
  FieldSpec, StructSpec, Tag, skipped, unknown, tagged, tag_of, add_field, named_field, compile,
  compile_embedded, spec_of, empty_spec, remove, drop_name, depth_of,
}
use grab_redis.Redisapi.Scan.Structs.{at_path, nth_field}

module _ {F : Type 0} (root : Dest F) where
  -- There is a field at the path.
  abbrev pub Leads : List ℕ → Type 0
  Leads path = (d : Dest F) × (at_path root path ≡ some d)

  -- The paths of the list and of the map all lead to a field.
  pub record IsSound (ss : StructSpec) : Type 0 where
    pub listed : All (λ fs. Leads fs.index) ss.l
    pub mapped : All (λ p. Leads p.1.index) ss.m

  All-drop_name :
      (name : Str) (l : List FieldSpec)
      → All (λ fs. Leads fs.index) l
      → All (λ fs. Leads fs.index) (drop_name name l)
  unfolding drop_name
  All-drop_name name [] h = tt
  All-drop_name name (fs ∷ l) (h, hs) = elim (Bool-cases (name == fs.name)) [
    | inl e ↦ rw e (All-drop_name name l hs)
    | inr e ↦ rw e (h, All-drop_name name l hs)
  ]

  All-remove :
      (name : Str) (m : List (Str × FieldSpec))
      → All (λ p. Leads p.1.index) m
      → All (λ p. Leads p.1.index) (remove name m)
  unfolding remove
  All-remove name [] h = tt
  All-remove name ((k, v) ∷ m) (h, hs) = elim (Bool-cases (k == name)) [
    | inl e ↦ rw e (All-remove name m hs)
    | inr e ↦ rw e (h, All-remove name m hs)
  ]

  All-insert :
      (name : Str) (fs : FieldSpec) (m : List (Str × FieldSpec))
      → Leads fs.index
      → All (λ p. Leads p.1.index) m
      → All (λ p. Leads p.1.index) (insert name fs m)
  unfolding insert
  All-insert name fs [] h hs = (h, tt)
  All-insert name fs ((k, v) ∷ m) h (h', hs) = elim (Bool-cases (k == name)) [
    | inl e ↦ rw e (h, hs)
    | inr e ↦ rw e (h', All-insert name fs m h hs)
  ]

  All-last :
      (fs : FieldSpec) (l : List FieldSpec)
      → Leads fs.index
      → All (λ fs. Leads fs.index) l
      → All (λ fs. Leads fs.index) (l ++ (fs ∷ []))
  All-last fs [] h hs = (h, tt)
  All-last fs (fs' ∷ l) h (h', hs) = (h', All-last fs l h hs)

  add_field-IsSound :
      (name : Str) (omit : Bool) (index : List ℕ) (i : ℕ) (ss : StructSpec)
      → Leads (index ++ (i ∷ []))
      → IsSound ss
      → IsSound (add_field name omit index i ss)
  unfolding add_field
  add_field-IsSound name omit index i ss h s =
      elim (Bool-cases (length index == depth_of name ss)) [
        | inl e ↦ rw e (record {
          listed = All-drop_name name ss.l s.listed;
          mapped = All-remove name ss.m s.mapped;
        })
        | inr e ↦ elim (Bool-cases (ltb (length index) (depth_of name ss))) [
          | inl e' ↦ rw e (
              rw e' (record {
                listed = All-last _ ss.l h s.listed;
                mapped = All-insert name _ ss.m h s.mapped;
              }))
          | inr e' ↦ rw e (rw e' s)
        ]
      ]

  -- Whatever the spec that comes out, it is sound.
  abbrev Keeps : Option StructSpec → Type 0
  Keeps r = (ss : StructSpec) → r ≡ some ss → IsSound ss

  none-Keeps : Keeps none
  none-Keeps ss h = absurd (none-ne-some ss h)

  some-Keeps : (ss : StructSpec) → IsSound ss → Keeps (some ss)
  some-Keeps ss h ss' e = subst IsSound (some-injective _ _ e) h

  bind-Keeps :
      (r : Option StructSpec) (k : StructSpec → Option StructSpec)
      → Keeps r
      → ((ss : StructSpec) → IsSound ss → Keeps (k ss))
      → Keeps (elim r [ none ↦ none | some ss ↦ k ss ])
  bind-Keeps none k h h' = none-Keeps
  bind-Keeps (some ss) k h h' = h' ss (h ss refl)

  if-Keeps : (b : Bool) (x y : Option StructSpec) → Keeps x → Keeps y → Keeps (if b then x else y)
  if-Keeps true x y h h' = h
  if-Keeps false x y h h' = h'

  named_field-Keeps :
      (info : FieldInfo) (index : List ℕ) (i : ℕ) (ss : StructSpec)
      → Leads (index ++ (i ∷ []))
      → IsSound ss
      → Keeps (named_field info index i ss)
  unfolding named_field
  named_field-Keeps info index i ss h s = tag_Keeps (tag_of info)
    where
      tag_Keeps :
          (t : Tag)
          → Keeps (elim t [
            | skipped ↦ some ss
            | unknown ↦ none
            | tagged name omit ↦ some (add_field name omit index i ss)
          ])
      tag_Keeps skipped = some-Keeps ss s
      tag_Keeps unknown = none-Keeps
      tag_Keeps (tagged name omit) = some-Keeps _ (add_field-IsSound name omit index i ss h s)

  -- the fields, from number `i` on, of the struct at `index`
  abbrev AreAt : Fields F → ℕ → List ℕ → Type 0
  AreAt fields i index =
      (j : ℕ) (path : List ℕ) → at_path root (index ++ ((i + j) ∷ path)) ≡ nth_field fields j path

  abbrev IsAt : Dest F → List ℕ → Type 0
  IsAt d index = (path : List ℕ) → at_path root (index ++ path) ≡ at_path d path

  IsAt-head :
      (info : FieldInfo) (d : Dest F) (rest : Fields F) (i : ℕ) (index : List ℕ)
      → AreAt (field info d rest) i index
      → IsAt d (index ++ (i ∷ []))
  unfolding nth_field at_path
  IsAt-head info d rest i index h path =
      ap (λ p. at_path root p) (append_assoc index (i ∷ []) path)
      ∙ (ap (λ k. at_path root (index ++ (k ∷ path))) (omega arith) ∙ h 0 path)

  AreAt-tail :
      (info : FieldInfo) (d : Dest F) (rest : Fields F) (i : ℕ) (index : List ℕ)
      → AreAt (field info d rest) i index
      → AreAt rest (suc i) index
  unfolding nth_field
  AreAt-tail info d rest i index h j path =
      ap (λ k. at_path root (index ++ (k ∷ path))) (omega arith) ∙ h (suc j) path

  AreAt-struct :
      (fields : Fields F) (index : List ℕ) → IsAt (struct_dest fields) index → AreAt fields 0 index
  unfolding at_path
  AreAt-struct fields index h j path =
      ap (λ k. at_path root (index ++ (k ∷ path))) (omega arith) ∙ h (j ∷ path)

  Leads-head : (d : Dest F) (index : List ℕ) → IsAt d index → Leads index
  unfolding at_path
  Leads-head d index h = (d, ap (λ p. at_path root p) (sym (append-nil index)) ∙ h [])

  mutual
    unfolding compile

    compile-Keeps :
        (fields : Fields F) (i : ℕ) (index : List ℕ) (ss : StructSpec)
        → AreAt fields i index
        → IsSound ss
        → Keeps (compile fields i index ss)
    compile-Keeps no_more i index ss h s = some-Keeps ss s
    compile-Keeps (field info d rest) i index ss h s =
        let at_d = IsAt-head info d rest i index h in
        bind-Keeps _ (λ ss'. compile rest (suc i) index ss')
          (if-Keeps (not info.exported && not info.anonymous) _ _ (some-Keeps ss s) (
            if-Keeps info.anonymous _ _ (compile_embedded-Keeps d (index ++ (i ∷ [])) ss at_d s)
              (named_field-Keeps info index i ss (Leads-head d _ at_d) s)))
          (λ ss' s'. compile-Keeps rest (suc i) index ss' (AreAt-tail info d rest i index h) s')

    compile_embedded-Keeps :
        (d : Dest F) (index : List ℕ) (ss : StructSpec)
        → IsAt d index
        → IsSound ss
        → Keeps (compile_embedded d index ss)
    compile_embedded-Keeps (struct_dest fields) index ss h s =
        compile-Keeps fields 0 index ss (AreAt-struct fields index h) s
    compile_embedded-Keeps (int_dest b x) index ss h s = some-Keeps ss s
    compile_embedded-Keeps (uint_dest b x) index ss h s = some-Keeps ss s
    compile_embedded-Keeps (float_dest b x) index ss h s = some-Keeps ss s
    compile_embedded-Keeps (bool_dest x) index ss h s = some-Keeps ss s
    compile_embedded-Keeps (string_dest x) index ss h s = some-Keeps ss s
    compile_embedded-Keeps (slice_dest z ds es) index ss h s = some-Keeps ss s
    compile_embedded-Keeps (iface_dest x) index ss h s = some-Keeps ss s
    compile_embedded-Keeps (nil_ptr x) index ss h s = some-Keeps ss s
    compile_embedded-Keeps (ptr x) index ss h s = some-Keeps ss s
    compile_embedded-Keeps (other_dest x b) index ss h s = some-Keeps ss s

-- Every path in the spec of a struct, of its list and of its map, leads to a field of that struct.
pub spec_of-IsSound :
    {F : Type 0} (fields : Fields F) (ss : StructSpec)
    → spec_of fields ≡ some ss
    → IsSound (struct_dest fields) ss
unfolding spec_of
spec_of-IsSound fields ss =
    compile-Keeps (struct_dest fields) fields 0 [] empty_spec
      (AreAt-struct (struct_dest fields) fields [] (λ path. refl))
      (record { listed = tt; mapped = tt }) ss
