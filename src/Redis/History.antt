-- ===== src/Redis/History.antt =====
-- public/RedisClient/RedisClient.h, `RedisValue`: what any calls leave under each key.
use cppserver.Prelude.{
  ◌≡◌, refl, ◌∙◌, Bool, true, false, List, [], ◌∷◌, String, Option, none, some, if◌then◌else◌,
  Option-cases, inl, inr,
}
use cppserver.Prelude.Maps.{string_key, lookup, insert, lookup-insert, lookup-insert_self}
use cppserver.Redis.{Item, assign_text, RedisValue, map_at, index, put, reset}

pub data Call : Type 0 where
  read : String → Call
  assign : String → String → Call
  clear : Call

unfoldable pub run : List Call → RedisValue → RedisValue
run [] m = m
run (read k ∷ calls) m = run calls (index k m).1
run (assign k text ∷ calls) m = run calls (put k text m)
run (clear ∷ calls) m = run calls (reset m)

-- The same calls on a table of texts, where reading an absent key leaves the empty text.
abbrev pub or_empty : Option Item → Item
or_empty none = record { val = "" }
or_empty (some item) = item

unfoldable pub run_texts : List Call → (String → Option Item) → String → Option Item
run_texts [] f j = f j
run_texts (read k ∷ calls) f j =
    run_texts calls (λ i. if string_key.beq k i then some (or_empty (f k)) else f i) j
run_texts (assign k text ∷ calls) f j =
    run_texts calls (λ i. if string_key.beq k i then some (record { val = text }) else f i) j
run_texts (clear ∷ calls) f j = run_texts calls (λ i. none) j

map_at-none :
    (k : String) (m : RedisValue)
    → lookup k m ≡ none
    → map_at k m ≡ (or_empty none, insert k (or_empty none) m)
unfolding map_at
map_at-none k m h = rw (h, map_at)

map_at-some :
    (k : String) (m : RedisValue) (item : Item) → lookup k m ≡ some item → map_at k m ≡ (item, m)
unfolding map_at
map_at-some k m item h = rw (h, map_at)

-- The empty text is stored twice for a new key.
index-none :
    (k : String) (m : RedisValue)
    → lookup k m ≡ none
    → index k m ≡ (or_empty none, insert k (or_empty none) (insert k (or_empty none) m))
unfolding index assign_text
index-none k m h =
    rw (h, index)
      (rw (map_at-none k m h) (
        map_at-some k (insert k (or_empty none) (insert k (or_empty none) m)) (or_empty none)
          (lookup-insert_self k (or_empty none) (insert k (or_empty none) m))))

index-some :
    (k : String) (m : RedisValue) (item : Item) → lookup k m ≡ some item → index k m ≡ (item, m)
unfolding index
index-some k m item h = rw (h, index) (map_at-some k m item h)

if_same : (b : Bool) (x y : Option Item) → (b ≡ true → y ≡ x) → y ≡ (if b then x else y)
if_same true x y h = h refl
if_same false x y h = refl

if_other :
    (b : Bool) (x z y : Option Item) → (if b then x else if b then z else y) ≡ (if b then x else y)
if_other true x z y = refl
if_other false x z y = refl

lookup-index :
    (j k : String) (m : RedisValue)
    → lookup j (index k m).1
      ≡ (if string_key.beq k j then some (or_empty (lookup k m)) else lookup j m)
lookup-index j k m = elim (Option-cases (lookup k m)) [
  | inl absent ↦
      rw (index-none k m absent, absent)
        (lookup-insert j k (or_empty none) (insert k (or_empty none) m)
          ∙ rw (lookup-insert j k (or_empty none) m) (
              if_other (string_key.beq k j) (some (or_empty none)) (some (or_empty none))
                (lookup j m)))
  | inr (item, there) ↦
      rw (index-some k m item there, there)
        (if_same (string_key.beq k j) (some item) (lookup j m)
          (λ e. rw (← (string_key.beq_iff k j).0 e) there))
]

lookup-put :
    (j k text : String) (m : RedisValue)
    → lookup j (put k text m)
      ≡ (if string_key.beq k j then some (record { val = text }) else lookup j m)
unfolding put assign_text
lookup-put j k text m =
    lookup-insert j k (record { val = text }) (index k m).1
    ∙ rw (lookup-index j k m) (
        if_other (string_key.beq k j) (some (record { val = text })) (some (or_empty (lookup k m)))
          (lookup j m))

run_texts-congr :
    (calls : List Call) (f g : String → Option Item)
    → ((j : String) → f j ≡ g j)
    → (j : String) → run_texts calls f j ≡ run_texts calls g j
run_texts-congr calls f g h j = λ i. run_texts calls (λ k. h k i) j

-- After any calls of operator[], assignments through it and reset, on any table, each field is
-- what the same calls give on a function from names to texts: an assignment sets its field, an
-- access alone to a field that is not there leaves the empty text, reset takes all.
pub get-run_fields :
    (calls : List Call) (m : RedisValue) (j : String)
    → lookup j (run calls m) ≡ run_texts calls (λ k. lookup k m) j
unfolding run run_texts reset lookup
get-run_fields [] m j = refl
get-run_fields (read k ∷ calls) m j =
    get-run_fields calls (index k m).1 j ∙ run_texts-congr calls _ _ (λ i. lookup-index i k m) j
get-run_fields (assign k text ∷ calls) m j =
    get-run_fields calls (put k text m) j ∙ run_texts-congr calls _ _ (λ i. lookup-put i k text m) j
get-run_fields (clear ∷ calls) m j = get-run_fields calls [] j
