-- ===== src/Tests/StructRuns.antt =====
-- The structs of redisapi/scan.go and redisapi/args.go at concrete inputs.
use grab_redis.Base.{ℕ, ◌≡◌, ◌≢◌, refl, true, false, none, some, List, [], ◌∷◌, map, arith}
use grab_redis.Base.Int.{ℤ, pos, negsuc}
use grab_redis.Base.Text.{Str, str, str_eq, str_beq}
use grab_redis.Redisapi.Args.{add_flat, plain, is_empty}
use grab_redis.Redisapi.Args.Plain.{Row, fields_of, IsNamed}
use grab_redis.Redisapi.Args.RoundTrip.{add_flat-scan_struct, ReadsBack}
use grab_redis.Redisapi.Reply.Maps.{insert}
use grab_redis.Redisapi.Scan.Assign.{assign_value, assign_text}
use grab_redis.Redisapi.Scan.Dest.{
  Dest, Fields, FieldInfo, int_dest, string_dest, struct_dest, no_more, field, pointer,
}
use grab_redis.Redisapi.Scan.Spec.{
  StructSpec, tag_of, split_comma, put_front, options_of, spec_of, compile, named_field, add_field,
  lookup, remove, drop_name,
}
use grab_redis.Redisapi.Scan.Spec.Listed.{Named, all_fields}
use grab_redis.Redisapi.Scan.Spec.Depths.{at_depth, sole, IsLeast}
use grab_redis.Redisapi.Scan.Spec.Dominant.{spec_of-dominant}
use grab_redis.Redisapi.Scan.Spec.Paths.{spec_of-IsSound, IsSound}
use grab_redis.Redisapi.Scan.Structs.{scan_struct}
use grab_redis.Redisapi.Strconv.{
  parse_int, parse_uint, parse_digits, format_int, format_uint, digits,
}
use grab_redis.Redisapi.Failure.{key_not_bulk}
use grab_redis.Redisapi.Value.{bulk, simple}
use grab_redis.Tests.ReplyRuns.{whole_floats}

-- How an argument is written: only texts and integers are needed here.
abbrev wire : Dest ℤ → Str
wire (string_dest s) = s
wire (int_dest bits n) = format_int n
wire d = []

abbrev info_of : Str → Str → FieldInfo
info_of name tag = record { name = name; exported = true; anonymous = false; tag = tag }

abbrev hits : Row ℤ
hits = record {
  info = info_of (str "Hits") (str "hits,omitempty");
  label = str "hits";
  omit = true;
  blank = int_dest 64 (pos 0);
  content = int_dest 64 (negsuc 6);
}

abbrev title : Row ℤ
title = record {
  info = info_of (str "Title") [];
  label = str "Title";
  omit = false;
  blank = string_dest [];
  content = string_dest (str "a title");
}

abbrev page : List (Row ℤ)
page = hits ∷ title ∷ []

hits-IsNamed : IsNamed hits
unfolding tag_of split_comma put_front options_of str_beq
hits-IsNamed = record { is_exported = refl; is_no_base = refl; has_tag = refl }

title-IsNamed : IsNamed title
unfolding tag_of split_comma put_front options_of str_beq
title-IsNamed = record { is_exported = refl; is_no_base = refl; has_tag = refl }

labels_differ : str "hits" ≢ str "Title"
labels_differ h = ground arith

hits-ReadsBack : ReadsBack whole_floats wire (λ s. refl) hits
unfolding assign_value assign_text parse_int parse_uint parse_digits format_int format_uint digits
hits-ReadsBack = refl

title-ReadsBack : ReadsBack whole_floats wire (λ s. refl) title
unfolding assign_value assign_text
title-ReadsBack = refl

add_flat-scan_struct_example :
    (args : List (Dest ℤ)) × (add_flat whole_floats []
        (plain (struct_dest (fields_of (λ r. r.content) page)))
      ≡ some args)
    × (scan_struct whole_floats
          (map (λ a. bulk (wire a)) args)
          (pointer (struct_dest (fields_of (λ r. r.blank) page)))
        ≡ some (none, pointer (struct_dest (fields_of (λ r. r.content) page))))
    × (args ≢ []
        → scan_struct whole_floats
            (map (λ a. simple (wire a)) args)
            (pointer (struct_dest (fields_of (λ r. r.blank) page)))
          ≡ some (some (key_not_bulk 0), pointer (struct_dest (fields_of (λ r. r.blank) page))))
unfolding is_empty
add_flat-scan_struct_example =
    add_flat-scan_struct whole_floats wire (λ s. refl) page (hits-IsNamed, (title-IsNamed, tt))
      ((labels_differ, tt), (tt, tt)) (hits-ReadsBack, (title-ReadsBack, tt))
      ((λ h. ground arith), ((λ h. ground arith), tt))

-- A struct with an embedded one, whose field of the same name is hidden.
abbrev base_fields : Fields ℤ
base_fields =
    field (info_of (str "Title") []) (string_dest [])
      (field (info_of (str "Id") (str "id")) (int_dest 64 (pos 0)) no_more)

abbrev nested_fields : Fields ℤ
nested_fields = field (info_of (str "Title") []) (string_dest []) (
    field (record { name = str "Base"; exported = true; anonymous = true; tag = [] })
      (struct_dest base_fields) no_more)

abbrev nested_spec : StructSpec
nested_spec = record {
  m =
      (str "Title", record { name = str "Title"; index = 0 ∷ []; omit_empty = false })
      ∷ (str "id", record { name = str "id"; index = 1 ∷ 1 ∷ []; omit_empty = false })
      ∷ [];
  l =
      record { name = str "Title"; index = 0 ∷ []; omit_empty = false }
      ∷ record { name = str "id"; index = 1 ∷ 1 ∷ []; omit_empty = false }
      ∷ [];
  depth = (str "Title", 0) ∷ (str "id", 1) ∷ [];
}

nested_compiles : spec_of nested_fields ≡ some nested_spec
unfolding spec_of compile named_field tag_of split_comma put_front options_of add_field lookup
    remove drop_name insert str_beq
nested_compiles = refl

spec_of-IsSound_example : IsSound (struct_dest nested_fields) nested_spec
spec_of-IsSound_example = spec_of-IsSound nested_fields nested_spec nested_compiles

-- Its fields with a name, and the one that `Title` stands for.
abbrev nested_named : List Named
nested_named =
    record { label = str "Title"; omit = false; at = []; number = 0 }
    ∷ record { label = str "Title"; omit = false; at = 1 ∷ []; number = 0 }
    ∷ record { label = str "id"; omit = false; at = 1 ∷ []; number = 1 }
    ∷ []

nested_named_fields : all_fields nested_fields 0 [] ≡ some nested_named
unfolding all_fields tag_of split_comma put_front options_of str_beq
nested_named_fields = refl

spec_of-dominant_example :
    (ss : StructSpec) × (spec_of nested_fields ≡ some ss)
    × ((d : ℕ)
        → IsLeast (str "Title") d nested_named
        → lookup (str "Title") ss.m ≡ sole (at_depth (str "Title") d nested_named))
    × (((d : ℕ) → at_depth (str "Title") d nested_named ≡ []) → lookup (str "Title") ss.m ≡ none)
spec_of-dominant_example =
    spec_of-dominant nested_fields nested_named (str "Title") nested_named_fields
      (omega arith, (omega arith, (omega arith, tt)))

-- The embedded struct first: the field of the same name that it hides stays in the list.
abbrev base_first : Fields ℤ
base_first =
    field (record { name = str "Base"; exported = true; anonymous = true; tag = [] })
      (struct_dest base_fields) (field (info_of (str "Title") []) (string_dest []) no_more)

abbrev names_of : StructSpec → List Str
names_of ss = map (λ fs. fs.name) ss.l

base_first_names :
    (ss : StructSpec) × (spec_of base_first ≡ some ss)
    × (names_of ss ≡ str "Title" ∷ str "id" ∷ str "Title" ∷ [])
unfolding spec_of compile named_field tag_of split_comma put_front options_of add_field lookup
    remove drop_name insert str_beq
base_first_names = (_, refl, refl)
