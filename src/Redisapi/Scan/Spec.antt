-- ===== src/Redisapi/Scan/Spec.antt =====
-- redisapi/scan.go: `compileStructSpec`, which finds the fields of a struct by name. `none` is the
-- panic on an unknown field tag.
pub mod Paths
pub mod Listed
pub mod Depths
pub mod Lookup
pub mod Dominant
pub mod Cache
use grab_redis.Base.{
  ℕ, suc, ◌^◌, Bool, true, false, not, ◌&&◌, Option, none, some, List, [], ◌∷◌, ◌++◌, length, ltb,
  ◌==◌, nat_eq, if◌then◌else◌,
}
use grab_redis.Base.Text.{Str, str, str_eq}
use grab_redis.Redisapi.Reply.Maps.{insert}
use grab_redis.Redisapi.Scan.Dest.{Dest, Fields, FieldInfo, struct_dest, no_more, field}

pub record FieldSpec : Type 0 where
  pub name : Str
  pub index : List ℕ
  pub omit_empty : Bool

-- The struct spec with the depths, while it is compiled.
pub record StructSpec : Type 0 where
  pub m : List (Str × FieldSpec)
  pub l : List FieldSpec
  pub depth : List (Str × ℕ)

unfoldable pub put_front : ℕ → List Str → List Str
put_front c [] = (c ∷ []) ∷ []
put_front c (p ∷ ps) = (c ∷ p) ∷ ps

-- `strings.Split(s, ",")`
unfoldable pub split_comma : Str → List Str
unfolding put_front
split_comma [] = [] ∷ []
split_comma (c ∷ s) = if c == b',' then [] ∷ split_comma s else put_front c (split_comma s)

unfoldable pub lookup {ℓ} : {V : Type ℓ} → Str → List (Str × V) → Option V
lookup key [] = none
lookup key ((k, v) ∷ m) = if k == key then some v else lookup key m

-- `delete(ss.m, name)`
unfoldable pub remove {ℓ} : {V : Type ℓ} → Str → List (Str × V) → List (Str × V)
remove key [] = []
remove key ((k, v) ∷ m) = if k == key then remove key m else (k, v) ∷ remove key m

-- The loop that takes a name out of `ss.l`.
unfoldable pub drop_name : Str → List FieldSpec → List FieldSpec
drop_name name [] = []
drop_name name (fs ∷ l) = if name == fs.name then drop_name name l else fs ∷ drop_name name l

-- What the tag of a field says: no field, an unknown option, or a name and `omitempty`.
pub data Tag : Type 0 where
  skipped unknown : Tag
  tagged : Str → Bool → Tag

-- The options behind the name.
unfoldable pub options_of : Str → Bool → List Str → Tag
options_of name omit [] = tagged name omit
options_of name omit (s ∷ ss) = if s == str "omitempty" then options_of name true ss else unknown

unfoldable pub tag_of : FieldInfo → Tag
tag_of info = elim (split_comma info.tag) [
  | [] ↦ tagged info.name false
  | p ∷ options ↦
      if p == str "-" then skipped else options_of (if p == [] then info.name else p) false options
]

-- `d, found := depth[name]`, 1 << 30 where there is none
abbrev pub depth_of : Str → StructSpec → ℕ
depth_of name ss = elim (lookup name ss.depth) [ none ↦ 2 ^ 30 | some d ↦ d ]

-- The switch on the depth, for field `i` of the struct at `index`.
unfoldable pub add_field : Str → Bool → List ℕ → ℕ → StructSpec → StructSpec
add_field name omit index i ss =
    if length index == depth_of name ss
    then record ss { m = remove name ss.m; l = drop_name name ss.l }
    else if ltb (length index) (depth_of name ss)
    then (let fs : FieldSpec = record {
      name = name;
      index = index ++ (i ∷ []);
      omit_empty = omit;
    } in
        record {
          m = insert name fs ss.m;
          l = ss.l ++ (fs ∷ []);
          depth = insert name (length index) ss.depth;
        })
    else ss

-- A field that is neither unexported nor embedded.
unfoldable pub named_field : FieldInfo → List ℕ → ℕ → StructSpec → Option StructSpec
named_field info index i ss = elim (tag_of info) [
  | skipped ↦ some ss
  | unknown ↦ none
  | tagged name omit ↦ some (add_field name omit index i ss)
]

unfoldable mutual
  -- `compileStructSpec`, on the fields from number `i` on
  pub compile : {F : Type 0} → Fields F → ℕ → List ℕ → StructSpec → Option StructSpec
  compile no_more i index ss = some ss
  compile (field info d rest) i index ss =
      let next =
        if not info.exported && not info.anonymous
        then some ss
        else if info.anonymous
        then compile_embedded d (index ++ (i ∷ [])) ss
        else named_field info index i ss in
      elim next [ none ↦ none | some ss' ↦ compile rest (suc i) index ss' ]

  -- An embedded field: the fields of a struct, and nothing of another type.
  pub compile_embedded : {F : Type 0} → Dest F → List ℕ → StructSpec → Option StructSpec
  compile_embedded (struct_dest fields) index ss = compile fields 0 index ss
  compile_embedded d index ss = some ss

abbrev pub empty_spec : StructSpec
empty_spec = record { m = []; l = []; depth = [] }

-- `structSpecForType`
unfoldable pub spec_of : {F : Type 0} → Fields F → Option StructSpec
spec_of fields = compile fields 0 [] empty_spec
