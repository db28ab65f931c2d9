-- ===== src/Bitfield.antt =====
-- The structs that `#[bitfield(bits = width)]` of the crate modular_bitfield declares: `from` and `into` of
-- a word are a parameter. Its fields have fixed widths that fill the word, `Fits` says that each value
-- has its width, and a setter of a field that fits replaces just this field.
use funderberker.Common.{ℕ, ◌^◌, ◌<◌, ◌≡◌}

pub record BitfieldOf (width : ℕ) (T : Type 0) (Fits : T → Type 0) : Type 0 where
  pub from : ℕ → T
  pub into : T → ℕ
  pub from-Fits : (word : ℕ) → Fits (from word)
  pub into_lt : (t : T) → Fits t → into t < 2 ^ width
  pub from-into : (t : T) → Fits t → from (into t) ≡ t

abbrev pub Bitfield : (T : Type 0) → (T → Type 0) → Type 0
Bitfield T Fits = BitfieldOf 64 T Fits
