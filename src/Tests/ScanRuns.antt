-- ===== src/Tests/ScanRuns.antt =====
-- redisapi/scan.go and redisapi/args.go at concrete inputs.
use grab_redis.Base.{◌≡◌, refl, true, false, Option, none, some, List, [], ◌∷◌, ◌++◌, map, arith}
use grab_redis.Base.Int.{ℤ, pos}
use grab_redis.Base.Text.{str}
use grab_redis.Redisapi.Failure.{Failure, at_dest, bad_number}
use grab_redis.Redisapi.Scan.Assign.{
  convert_assign, assign_pointed, assign_stored, assign_value, assign_text, assign_items,
  assign_array, assign_each, fail, source_name,
}
use grab_redis.Redisapi.Scan.Dest.{
  Target, int_dest, string_dest, bool_dest, pointer, slice_dest, end, nil_target, ensure_len,
  dests_append, count, front, behind, copies,
}
use grab_redis.Redisapi.Scan.Variables.{scan, scan_from}
use grab_redis.Redisapi.Scan.Variables.Order.{
  Converts, none_left, converts, scan-Converts, scan-failed,
}
use grab_redis.Redisapi.Scan.Variables.Panics.{scan-Returns}
use grab_redis.Redisapi.Strconv.{parse_int, parse_uint, parse_digits, syntax}
use grab_redis.Redisapi.Value.{Value, null, integer, bulk, simple, array, to_list, of_list}
use grab_redis.Tests.ReplyRuns.{whole_floats}

abbrev row : List Value
row = bulk (str "42") ∷ null ∷ []

abbrev before : List (Target ℤ)
before = pointer (int_dest 64 (pos 0)) ∷ pointer (string_dest (str "old")) ∷ []

abbrev after : List (Target ℤ)
after = pointer (int_dest 64 (pos 42)) ∷ pointer (string_dest (str "old")) ∷ []

number_read :
    convert_assign whole_floats (pointer (int_dest 64 (pos 0))) (bulk (str "42"))
    ≡ some (pointer (int_dest 64 (pos 42)), none)
unfolding convert_assign assign_pointed assign_stored assign_value assign_text parse_int parse_uint
    parse_digits
number_read = refl

nil_read :
    convert_assign whole_floats (pointer (string_dest (str "old"))) null
    ≡ some (pointer (string_dest (str "old")), none)
unfolding convert_assign
nil_read = refl

row-Converts : Converts whole_floats row before after
row-Converts = converts number_read (converts nil_read none_left)

scan-Converts_example :
    scan whole_floats (row ++ (integer (pos 3) ∷ [])) before
    ≡ some (integer (pos 3) ∷ [], none, after)
scan-Converts_example = scan-Converts whole_floats (integer (pos 3) ∷ []) row-Converts

not_a_number :
    convert_assign whole_floats (pointer (int_dest 64 (pos 7))) (bulk (str "x"))
    ≡ some (pointer (int_dest 64 (pos 0)), some (bad_number (str "x") syntax))
unfolding convert_assign assign_pointed assign_stored assign_value assign_text parse_int parse_uint
    parse_digits
not_a_number = refl

scan-failed_example :
    scan whole_floats
      (row ++ (bulk (str "x") ∷ integer (pos 1) ∷ []))
      (before ++ (pointer (int_dest 64 (pos 7)) ∷ pointer (bool_dest false) ∷ []))
    ≡ some (
      [],
      some (at_dest 2 (bad_number (str "x") syntax)),
      after ++ (pointer (int_dest 64 (pos 0)) ∷ pointer (bool_dest false) ∷ []),
    )
scan-failed_example =
    scan-failed whole_floats (bulk (str "x")) (integer (pos 1) ∷ []) (pointer (int_dest 64 (pos 7)))
      (pointer (int_dest 64 (pos 0))) (pointer (bool_dest false) ∷ []) (bad_number (str "x") syntax)
      row-Converts not_a_number (omega arith)

abbrev nested : List Value
nested = array (of_list (bulk (str "1") ∷ simple (str "2") ∷ [])) ∷ row

scan-Returns_example :
    (left : List Value) × (e : Option Failure) × (ds' : List (Target ℤ)) × (scan whole_floats nested
        (map (λ d. pointer d) (bool_dest true ∷ string_dest [] ∷ []))
      ≡ some (left, e, ds'))
unfolding to_list of_list
scan-Returns_example =
    scan-Returns whole_floats nested (bool_dest true ∷ string_dest [] ∷ [])
      ((tt, (tt, tt)), (tt, (tt, tt)))

-- A nil destination is skipped for a bulk string, and a panic for a simple one.
nil_target_runs :
    (scan whole_floats (bulk (str "a") ∷ []) (nil_target ∷ []) ≡ some ([], none, nil_target ∷ []))
    × (scan whole_floats (simple (str "a") ∷ []) (nil_target ∷ []) ≡ none)
unfolding scan scan_from convert_assign
nil_target_runs = (refl, refl)

-- An array with a nil element, into a slice of integers.
nil_element_run :
    scan whole_floats
      (array (of_list (null ∷ [])) ∷ [])
      (pointer (slice_dest (int_dest 64 (pos 0)) end end) ∷ [])
    ≡ none
unfolding scan scan_from convert_assign assign_pointed assign_items assign_array assign_each
    assign_value fail source_name ensure_len dests_append count front behind copies to_list of_list
nil_element_run = refl
