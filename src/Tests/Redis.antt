-- ===== src/Tests/Redis.antt =====
-- Tests of the model of public/RedisClient/RedisClient.h.
use cppserver.Prelude.{◌≡◌, refl, [], ◌∷◌, some}
use cppserver.Prelude.Maps.{string_key, lookup}
use cppserver.Redis.{index, map_at, assign_text}
use cppserver.Redis.History.{read, assign, clear, run, run_texts, get-run_fields}

get-run_fields_example :
    lookup "b" (run (assign "a" "1" ∷ clear ∷ read "b" ∷ assign "a" "2" ∷ []) [])
    ≡ run_texts (assign "a" "1" ∷ clear ∷ read "b" ∷ assign "a" "2" ∷ []) (λ k. lookup k []) "b"
get-run_fields_example =
    get-run_fields (assign "a" "1" ∷ clear ∷ read "b" ∷ assign "a" "2" ∷ []) [] "b"

read_b : lookup "b" (run (read "b" ∷ []) []) ≡ some (record { val = "" })
unfolding run index map_at assign_text lookup cppserver.Prelude.Maps.insert
    cppserver.Prelude.Maps.place cppserver.Prelude.Maps.update
read_b = refl
