-- ===== src/Redisapi/Geo.antt =====
-- redisapi/reply_geo.go: the replies of the geo commands.
pub mod Location
use grab_redis.Base.{
  ℕ, Bool, true, false, Option, none, some, List, [], ◌∷◌, length, ltb, ◌==◌, ◌||◌, nat_eq,
  if◌then◌else◌,
}
use grab_redis.Base.Int.{ℤ, pos}
use grab_redis.Base.Text.{Str}
use grab_redis.Errors.{Error}
use grab_redis.Float.{FloatText}
use grab_redis.Redisapi.Failure.{Failure, geo_point_length, geo_location_length}
use grab_redis.Redisapi.Reply.{Result, values, string, int64, float64}
use grab_redis.Redisapi.Reply.Lists.{float64s}
use grab_redis.Redisapi.Value.{Value, integer, simple, array}

pub record GeoPoint {ℓ} (F : Type ℓ) : Type ℓ where
  pub lat : F
  pub lng : F

pub record GeoLocation {ℓ} (F : Type ℓ) : Type ℓ where
  pub name : Str
  pub distance : F
  pub geo_point : GeoPoint F
  pub hash : ℤ

module _ (f : FloatText) where
  abbrev pub zero_point : GeoPoint f.Float
  zero_point = record { lat = f.zero; lng = f.zero }

  -- The two floats of a point, longitude first.
  abbrev pub point_of : List f.Float → Result (GeoPoint f.Float)
  point_of (lng ∷ lat ∷ []) = (record { lat = lat; lng = lng }, none)
  point_of _ = (zero_point, some geo_point_length)

  -- `convertToGeoGeoPoint`
  unfoldable pub convert_to_geo_point : Value → Result (GeoPoint f.Float)
  convert_to_geo_point reply =
      let (latlng, e) = float64s f reply none in
      elim e [ some x ↦ (zero_point, some x) | none ↦ point_of latlng ]

  -- The loop of `GeoPosition`; the slice is nil on an error.
  unfoldable pub points_from : List Value → Result (List (GeoPoint f.Float))
  unfolding convert_to_geo_point
  points_from [] = ([], none)
  points_from (v ∷ vs) =
      let (p, e) = convert_to_geo_point v in
      let (rest, e') = points_from vs in
      elim e [
        | some x ↦ ([], some x)
        | none ↦ elim e' [ some x ↦ ([], some x) | none ↦ (p ∷ rest, none) ]
      ]

  unfoldable pub geo_position : Value → Option Error → Result (List (GeoPoint f.Float))
  unfolding points_from
  geo_position reply err =
      let (vs, e) = values reply err in elim e [ some x ↦ ([], some x) | none ↦ points_from vs ]

  abbrev pub zero_location : GeoLocation f.Float
  zero_location = record { name = []; distance = f.zero; geo_point = zero_point; hash = pos 0 }

  -- One item behind the first: its type says what it is.
  unfoldable pub set_item : GeoLocation f.Float → Value → GeoLocation f.Float × Option Failure
  unfolding convert_to_geo_point
  set_item result (integer n) =
      let (hash, e) = int64 (integer n) none in (record result { hash = hash }, e)
  set_item result (simple s) =
      let (distance, e) = float64 f (simple s) none in (record result { distance = distance }, e)
  set_item result (array vs) =
      let (p, e) = convert_to_geo_point (array vs) in (record result { geo_point = p }, e)
  set_item result item = (result, none)

  unfoldable pub set_items :
      GeoLocation f.Float → List Value → Result (Option (GeoLocation f.Float))
  unfolding set_item
  set_items result [] = (some result, none)
  set_items result (item ∷ items) =
      let (result', e) = set_item result item in
      elim e [ some x ↦ (none, some x) | none ↦ set_items result' items ]

  -- The loop over the items; the location is nil on an error.
  unfoldable pub location_of : List Value → Result (Option (GeoLocation f.Float))
  unfolding set_items
  location_of [] = (none, some geo_location_length)
  location_of (item ∷ items) =
      if ltb 3 (length items)
      then (none, some geo_location_length)
      else (let (name, e) = string item none in
          elim e [
            | some x ↦ (none, some x)
            | none ↦ set_items (record zero_location { name = name }) items
          ])

  -- `convertToGeoLocation`
  unfoldable pub convert_to_geo_location : Value → Result (Option (GeoLocation f.Float))
  unfolding location_of
  convert_to_geo_location reply =
      let (items, e) = values reply none in
      elim e [ some x ↦ (none, some x) | none ↦ location_of items ]

  -- The loop of `GeoLocations`
  unfoldable pub locations_from : List Value → Result (List (Option (GeoLocation f.Float)))
  unfolding convert_to_geo_location
  locations_from [] = ([], none)
  locations_from (v ∷ vs) =
      let (l, e) = convert_to_geo_location v in
      let (rest, e') = locations_from vs in
      elim e [
        | some x ↦ ([], some x)
        | none ↦ elim e' [ some x ↦ ([], some x) | none ↦ (l ∷ rest, none) ]
      ]

  unfoldable pub geo_locations : Value → Option Error → Result (List (Option (GeoLocation f.Float)))
  unfolding locations_from
  geo_locations reply err =
      let (vs, e) = values reply err in elim e [ some x ↦ ([], some x) | none ↦ locations_from vs ]
