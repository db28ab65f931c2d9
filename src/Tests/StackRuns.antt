-- ===== src/Tests/StackRuns.antt =====
-- Runs of a stack of three numbers.
use funderberker.Common.{ℕ, [], ◌∷◌}
use funderberker.StackList.{StackList}

abbrev three : StackList ℕ
three = record { elements = 7 ∷ 8 ∷ 9 ∷ []; len = 3 }
