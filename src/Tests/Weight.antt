-- ===== src/Tests/Weight.antt =====
-- Tests of the model of `WeightImpl` with its `RandomImpl`.
use cppserver.Prelude.{ℕ, ◌≡◌, true, false, List, [], ◌∷◌, some, ◌>>=◌, All, arith}
use cppserver.Weight.{total, number}
use cppserver.Weight.Service.{Drawer, begin, serve, again, result}
use cppserver.Weight.Answers.{IsDrawable, answers-IsDrawable}
use cppserver.Tests.Rand.{counting, counting-IsUniform, start}

abbrev idle : Drawer ℕ ℕ ℕ
idle = record { rand = start; sum = 0; items = [] }

answers-IsDrawable_example :
    (r : List ℕ × Drawer ℕ ℕ ℕ) × ((begin counting (1 ∷ 0 ∷ 2 ∷ []) idle
        >>= serve counting (again ∷ result true ∷ result false ∷ []))
      ≡ some r)
    × All (IsDrawable (1 ∷ 0 ∷ 2 ∷ [])) r.0
unfolding total number
answers-IsDrawable_example =
    answers-IsDrawable counting (1 ∷ 0 ∷ 2 ∷ []) idle (again ∷ result true ∷ result false ∷ [])
      counting-IsUniform (omega arith) (omega arith)
