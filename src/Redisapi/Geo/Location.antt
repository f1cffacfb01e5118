-- ===== src/Redisapi/Geo/Location.antt =====
-- Locations of redisapi/reply_geo.go: what GEORADIUS sends with its options is read back.
use grab_redis.Base.{◌≡◌, ◌≢◌, Option, none, some, List, [], ◌∷◌, ◌++◌, arith}
use grab_redis.Base.Int.{ℤ, pos}
use grab_redis.Base.Text.{Str}
use grab_redis.Float.{FloatText}
use grab_redis.Redisapi.Geo.{
  GeoPoint, GeoLocation, convert_to_geo_point, convert_to_geo_location, zero_point, set_items,
  set_item, location_of,
}
use grab_redis.Redisapi.Reply.{values, string, float64, int64}
use grab_redis.Redisapi.Reply.Lists.{float64s}
use grab_redis.Redisapi.Value.{Value, simple, integer, array, to_list, of_list}

-- What the options WITHDIST, WITHHASH and WITHCOORD add, in the order of the reply.
abbrev pub distance_item : Option Str → List Value
distance_item none = []
distance_item (some s) = simple s ∷ []

abbrev pub hash_item : Option ℤ → List Value
hash_item none = []
hash_item (some n) = integer n ∷ []

abbrev pub point_item : Option (Str × Str) → List Value
point_item none = []
point_item (some (lng, lat)) = array (of_list (simple lng ∷ simple lat ∷ [])) ∷ []

module _ (f : FloatText) where
  -- A text of a float, with the float that it reads as.
  abbrev pub ReadsAs : Str → f.Float → Type 0
  ReadsAs s x = f.parse 64 s ≡ (x, none)

  abbrev pub DistanceIs : Option Str → f.Float → Type 0
  DistanceIs none x = x ≡ f.zero
  DistanceIs (some s) x = ReadsAs s x

  abbrev pub HashIs : Option ℤ → ℤ → Type 0
  HashIs none n = n ≡ pos 0
  HashIs (some m) n = n ≡ m

  abbrev pub PointIs : Option (Str × Str) → GeoPoint f.Float → Type 0
  PointIs none p = p ≡ zero_point f
  PointIs (some (lng, lat)) p = ReadsAs lng p.lng × ReadsAs lat p.lat

  -- A location as GEORADIUS sends it with at least one of its three options, its texts as Go strings,
  -- with floats that parse: the location has the name and what was sent, and zero for what was not.
  -- Without an option GEORADIUS sends the bare name, which is refused.
  pub convert_to_geo_location_lem :
      (name : Str) (d : Option Str) (h : Option ℤ) (c : Option (Str × Str))
      (l : GeoLocation f.Float)
      → l.name ≡ name
      → DistanceIs d l.distance
      → HashIs h l.hash
      → PointIs c l.geo_point
      → distance_item d ++ (hash_item h ++ point_item c) ≢ []
      → (convert_to_geo_location f
            (array (of_list (simple name ∷ (distance_item d ++ (hash_item h ++ point_item c)))))
          ≡ (some l, none))
        × ((convert_to_geo_location f (simple name)).1 ≢ none)
  unfolding convert_to_geo_location location_of values string set_items set_item
      convert_to_geo_point float64s float64 int64 to_list of_list
  convert_to_geo_location_lem name none none none l e p q r some_option =
      (ground arith, λ x. ground arith)
  convert_to_geo_location_lem name none none (some (x, y)) l e p q r some_option =
      (ground arith, λ x. ground arith)
  convert_to_geo_location_lem name none (some n) none l e p q r some_option =
      (ground arith, λ x. ground arith)
  convert_to_geo_location_lem name none (some n) (some (x, y)) l e p q r some_option =
      (ground arith, λ x. ground arith)
  convert_to_geo_location_lem name (some s) none none l e p q r some_option =
      (ground arith, λ x. ground arith)
  convert_to_geo_location_lem name (some s) none (some (x, y)) l e p q r some_option =
      (ground arith, λ x. ground arith)
  convert_to_geo_location_lem name (some s) (some n) none l e p q r some_option =
      (ground arith, λ x. ground arith)
  convert_to_geo_location_lem name (some s) (some n) (some (x, y)) l e p q r some_option =
      (ground arith, λ x. ground arith)
