-- ===== src/Redis.antt =====
-- public/RedisClient/RedisClient.h: `RedisValItem` and `RedisValue`, the fields of a hash as
-- texts. The conversions of the standard library that may throw are parameters, where `none` is
-- an exception.
pub mod History
use cppserver.Prelude.{
  ℕ, ◌%◌, ◌^◌, ◌-◌, ◌==◌, Bool, true, false, List, [], ◌∷◌, String, Option, none, some,
  if◌then◌else◌, ◌>>=◌,
}
use cppserver.Prelude.Int.{ℤ, pos, negsuc}
use cppserver.Prelude.Maps.{string_key, lookup, insert, is_empty}

pub record Item : Type 0 where
  pub val : String

-- `asInt`, `asLong` and `asInt64`, by `stoi`, `stol` and `stoll`.
unfoldable pub as_int : (String → Option ℤ) → Item → Option ℤ
as_int stoi item = if is_empty item.val then some (pos 0) else stoi item.val

unfoldable pub as_long : (String → Option ℤ) → Item → Option ℤ
as_long stol item = if is_empty item.val then some (pos 0) else stol item.val

unfoldable pub as_int64 : (String → Option ℤ) → Item → Option ℤ
as_int64 stoll item = if is_empty item.val then some (pos 0) else stoll item.val

-- The cast to `unsigned int`.
abbrev pub to_unsigned : ℤ → ℕ
to_unsigned (pos n) = n % 2 ^ 32
to_unsigned (negsuc n) = 2 ^ 32 - 1 - n % 2 ^ 32

unfoldable pub as_uint : (String → Option ℤ) → Item → Option ℕ
as_uint stoi item =
    if is_empty item.val then some 0 else (do n ← as_int stoi item; some (to_unsigned n))

unfoldable pub as_string : Item → String
as_string item = item.val

-- `operator=` from a text, and from a number by `std::to_string`.
unfoldable pub assign_text : String → Item → Item
assign_text value item = record item { val = value }

unfoldable pub assign_number {ℓ} : {D : Type ℓ} → (D → String) → D → Item → Item
assign_number to_string value item = record item { val = to_string value }

abbrev pub RedisValue : Type 0
RedisValue = List (String × Item)

-- `listval[key]` of `std::map`: an entry that is not there is made.
unfoldable pub map_at : String → RedisValue → Item × RedisValue
map_at key listval = elim (lookup key listval) [
  | none ↦ (record { val = "" }, insert key (record { val = "" }) listval)
  | some item ↦ (item, listval)
]

-- `operator[]`: the item that the reference names, and the map it stands in.
unfoldable pub index : String → RedisValue → Item × RedisValue
index key listval = elim (lookup key listval) [
  | none ↦ map_at key (insert key (assign_text "" (map_at key listval).0) (map_at key listval).1)
  | some item ↦ map_at key listval
]

-- `value[key] = text`, through the reference.
unfoldable pub put : String → String → RedisValue → RedisValue
put key text listval = insert key (assign_text text (index key listval).0) (index key listval).1

unfoldable pub reset : RedisValue → RedisValue
reset listval = []

unfoldable pub empty : RedisValue → Bool
empty [] = true
empty (e ∷ listval) = false
