-- ===== src/Tests/ReplyRuns.antt =====
-- The reply helpers of redisapi/ at concrete inputs; a float is read as an integer here.
use grab_redis.Base.{
  ◌≡◌, ◌≢◌, ◌↔◌, refl, none, some, List, [], ◌∷◌, ◌++◌, map, All, arith, ◌==◌, nat_eq,
}
use grab_redis.Base.Int.{ℤ, pos, negsuc, int_eq}
use grab_redis.Base.Text.{Str, str}
use grab_redis.Float.{FloatText}
use grab_redis.Redisapi.Geo.{GeoLocation, convert_to_geo_location}
use grab_redis.Redisapi.Geo.Location.{
  convert_to_geo_location_lem, distance_item, hash_item, point_item,
}
use grab_redis.Redisapi.Reply.{int, int64}
use grab_redis.Redisapi.Reply.Lists.{strings, byte_slices}
use grab_redis.Redisapi.Reply.Lists.Texts.{strings_iff, IsText, text_of, or_empty_text}
use grab_redis.Redisapi.Reply.Maps.{string_map, int64_map}
use grab_redis.Redisapi.Reply.Maps.RoundTrip.{maps-alternate, alternate}
use grab_redis.Redisapi.Reply.Numbers.{int64-format}
use grab_redis.Redisapi.Strconv.{format_int, parse_int, parse_uint, parse_digits}
use grab_redis.Redisapi.Value.{as_string, Value, null, integer, bulk, simple, array, of_list}

abbrev pub whole_floats : FloatText
whole_floats = record {
  Float = ℤ;
  zero = pos 0;
  parse = λ bits s. parse_int bits s;
  is_zero = λ x. x == pos 0;
}

int64-format_example :
    (int64 (integer (negsuc 41)) none ≡ (negsuc 41, none))
    × (int64 (bulk (format_int (negsuc 41))) none ≡ (negsuc 41, none))
    × (int64 (simple (format_int (negsuc 41))) none ≡ (negsuc 41, none))
    × (int (integer (negsuc 41)) none ≡ (negsuc 41, none))
    × (int (bulk (format_int (negsuc 41))) none ≡ (negsuc 41, none))
    × (int (simple (format_int (negsuc 41))) none ≡ (negsuc 41, none))
int64-format_example = int64-format (negsuc 41) (omega arith)

abbrev pub big_text : Value
big_text = bulk (str "99999999999999999999")

abbrev pub some_texts : List (Str × Str)
some_texts = (str "name", str "redis") ∷ (str "mode", []) ∷ []

abbrev pub some_numbers : List (Str × ℤ)
some_numbers = (str "hits", pos 12) ∷ (str "delta", negsuc 2) ∷ []

names_differ : str "mode" ≢ str "name"
names_differ h = ground arith

keys_differ : str "delta" ≢ str "hits"
keys_differ h = ground arith

maps-alternate_example :
    (string_map (array (of_list (alternate as_string (λ s. s) some_texts))) none
      ≡ (some_texts, none))
    × (int64_map (array (of_list (alternate as_string format_int some_numbers))) none
        ≡ (some_numbers, none))
maps-alternate_example =
    maps-alternate as_string some_texts some_numbers ((names_differ, tt), (tt, tt))
      ((keys_differ, tt), (tt, tt)) (omega arith, (omega arith, tt))

abbrev pub some_values : List Value
some_values = bulk (str "a") ∷ null ∷ simple (str "b") ∷ []

strings_iff_example :
    (((strings (array (of_list some_values)) none).1 ≡ none) ↔ All IsText some_values)
    × (((byte_slices (array (of_list some_values)) none).1 ≡ none) ↔ All IsText some_values)
    × (All IsText some_values
        → strings (array (of_list some_values)) none
          ≡ (map (λ v. or_empty_text (text_of v)) some_values, none))
    × (All IsText some_values
        → byte_slices (array (of_list some_values)) none ≡ (map text_of some_values, none))
strings_iff_example = strings_iff some_values

abbrev pub palermo : GeoLocation ℤ
palermo = record {
  name = str "Palermo";
  distance = pos 190;
  geo_point = record { lat = pos 38; lng = pos 13 };
  hash = pos 0;
}

parsed_190 : whole_floats.parse 64 (str "190") ≡ (pos 190, none)
unfolding parse_int parse_uint parse_digits
parsed_190 = refl

parsed_13 : whole_floats.parse 64 (str "13") ≡ (pos 13, none)
unfolding parse_int parse_uint parse_digits
parsed_13 = refl

parsed_38 : whole_floats.parse 64 (str "38") ≡ (pos 38, none)
unfolding parse_int parse_uint parse_digits
parsed_38 = refl

convert_to_geo_location_lem_example :
    (convert_to_geo_location whole_floats (
        array (
          of_list (
            simple (str "Palermo")
            ∷ (distance_item (some (str "190"))
                ++ (hash_item none ++ point_item (some (str "13", str "38")))))))
      ≡ (some palermo, none))
    × ((convert_to_geo_location whole_floats (simple (str "Palermo"))).1 ≢ none)
convert_to_geo_location_lem_example =
    convert_to_geo_location_lem whole_floats (str "Palermo") (some (str "190")) none
      (some (str "13", str "38")) palermo refl parsed_190 refl (parsed_13, parsed_38)
      (λ h. ground arith)

abbrev pub some_ints : List ℤ
some_ints = pos 1 ∷ negsuc 6 ∷ pos 300 ∷ []
