-- ===== src/Paging/Tables/Index.antt =====
-- The indices of pages that lie next to each other in one table.
use funderberker.Common.{ℕ, suc, ◌+◌, ◌*◌, ◌/◌, ◌%◌, ◌^◌, ◌<◌, ◌≡◌, sym, ◌∙◌, ap, arith}
use funderberker.Bits.{and_low}
use funderberker.Pmm.Power.{pow-add}
use native.Mathlib.Nat.{div-div-eq-div-mul}
use funderberker.Paging.Entry.{next_level_index}

pub next_level_index-mod : (v r : ℕ) → next_level_index v r ≡ v / 2 ^ (12 + r * 9) % 512
unfolding next_level_index
next_level_index-mod v r = and_low 9 (v / 2 ^ (12 + r * 9))

pub next_level_index_lt : (v r : ℕ) → next_level_index v r < 512
next_level_index_lt v r = omega (arith, next_level_index-mod v r)

module _ (v k : ℕ) (aligned : v % 4096 ≡ 0) (fits : next_level_index v 0 + k < 512) where
  pub next_level_index_leaf : next_level_index (v + k * 4096) 0 ≡ next_level_index v 0 + k
  next_level_index_leaf =
      omega (arith, next_level_index-mod v 0, next_level_index-mod (v + k * 4096) 0)

  same_block : (v + k * 4096) / 2097152 ≡ v / 2097152
  same_block = omega (arith, next_level_index-mod v 0)

  pub next_level_index_above :
      (r : ℕ) → next_level_index (v + k * 4096) (suc r) ≡ next_level_index v (suc r)
  next_level_index_above r =
      let e : (12 + suc r * 9) ≡ 21 + r * 9 = omega arith in
      let split = λ (x : ℕ). div-div-eq-div-mul x 2097152 (2 ^ (r * 9)) in
      let up : (v + k * 4096) / 2 ^ (12 + suc r * 9) ≡ v / 2 ^ (12 + suc r * 9) =
        rw (e, pow-add 21 (r * 9))
          (sym (split (v + k * 4096)) ∙ ap (λ (x : ℕ). x / 2 ^ (r * 9)) same_block ∙ split v) in
      next_level_index-mod (v + k * 4096) (suc r)
      ∙ ap (λ (x : ℕ). x % 512) up
      ∙ sym (next_level_index-mod v (suc r))
