-- ===== src/Tests/Packing.antt =====
-- Fields of given widths packed into a word from its lowest digit on: a way to read bitfields.
use funderberker.Common.{
  zero, suc, ℕ, ◌+◌, ◌*◌, ◌/◌, ◌%◌, ◌^◌, ◌≤◌, ◌<◌, ◌≡◌, refl, ◌∙◌, arith, List, [], ◌∷◌, get_or,
}
use native.Mathlib.Nat.{
  one-le-pow, mod-lt, mod-eq_of_lt, add-mul-mod_self_left, add-mul-div_left, div-eq_of_lt,
  mul-le-mul_left,
}
use funderberker.Pmm.Power.{pow-add}

unfoldable pub pack : List ℕ → List ℕ → ℕ
pack (w ∷ ws) (v ∷ vs) = v + 2 ^ w * pack ws vs
pack _ _ = 0

unfoldable pub unpack : List ℕ → ℕ → List ℕ
unpack [] word = []
unpack (w ∷ ws) word = word % 2 ^ w ∷ unpack ws (word / 2 ^ w)

abbrev pub AllFit : List ℕ → List ℕ → Type 0
AllFit (w ∷ ws) (v ∷ vs) = (v < 2 ^ w) × AllFit ws vs
AllFit [] [] = Unit {0}
AllFit _ _ = ⊥

abbrev pub sum : List ℕ → ℕ
sum [] = 0
sum (w ∷ ws) = w + sum ws

field : (d v n : ℕ) → v < d → ((v + d * n) % d ≡ v) × ((v + d * n) / d ≡ n)
field d v n lt = (
  add-mul-mod_self_left v d n ∙ mod-eq_of_lt lt,
  add-mul-div_left v n (omega arith) ∙ rw (div-eq_of_lt lt) (omega arith),
)

pub unpack-pack : (ws vs : List ℕ) → AllFit ws vs → unpack ws (pack ws vs) ≡ vs
unfolding unpack pack
unpack-pack [] [] h = refl
unpack-pack [] (v ∷ vs) h = elim h [ ]
unpack-pack (w ∷ ws) [] h = elim h [ ]
unpack-pack (w ∷ ws) (v ∷ vs) (lt, h) =
    let (low, rest) = field (2 ^ w) v (pack ws vs) lt in rw (low, rest, unpack-pack ws vs h) refl

pub pack_lt : (ws vs : List ℕ) → AllFit ws vs → pack ws vs < 2 ^ sum ws
unfolding pack
pack_lt [] [] h = omega arith
pack_lt [] (v ∷ vs) h = elim h [ ]
pack_lt (w ∷ ws) [] h = elim h [ ]
pack_lt (w ∷ ws) (v ∷ vs) (lt, h) =
    let n = pack ws vs in
    let fill : 2 ^ w * (n + 1) ≤ 2 ^ w * 2 ^ sum ws =
      mul-le-mul_left (2 ^ w) (omega (arith, pack_lt ws vs h)) in
    rw (pow-add w (sum ws)) (omega arith)

pub unpack_lt : (ws : List ℕ) (word k : ℕ) → get_or (unpack ws word) k 0 < 2 ^ get_or ws k 0
unfolding unpack
unpack_lt [] word k = omega arith
unpack_lt (w ∷ ws) word zero = mod-lt word (one-le-pow w 2 (omega arith))
unpack_lt (w ∷ ws) word (suc k) = unpack_lt ws (word / 2 ^ w) k
