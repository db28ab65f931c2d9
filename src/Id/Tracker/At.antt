-- ===== src/Id/Tracker/At.antt =====
-- `allocate_at` and `free` against the set of taken identifiers.
use funderberker.Common.{
  ℕ, ◌-◌, ◌≡◌, refl, arith, Bool, true, false, Outcome, ok, err, ◌⊎◌, inl, inr, Bool-cases,
}
use funderberker.Bitmap
use funderberker.Bitmap.{Bitmap, BitmapError}
use funderberker.Bitmap.Contents.{is_set-contents}
use funderberker.Bitmap.Methods.{Changes, set-Changes, unset-Changes}
use funderberker.Id.Tracker.{
  IdTracker, invalid_id, id_already_taken, id_already_free, allocate_at, free,
}
use funderberker.Id.Tracker.State.{
  IsValid, InPool, taken, Marks, bit_index-InPool, bit_index_outside,
}

-- A change of one bit, told of the tracker.
pub Marks-of_Changes :
    {t : IdTracker}
    → IsValid t
    → (id : ℕ) → InPool t id
    → (b : Bool) (o : Outcome BitmapError Bitmap) → Changes t.bitmap (id - t.min) (λ _. b) o
    → (bitmap : Bitmap) × (o ≡ ok bitmap) × Marks t id b (record t { bitmap = bitmap })
unfolding taken
Marks-of_Changes {t} v id inside b o (bitmap, done, valid, size, bits) = (
  bitmap,
  done,
  record {
    valid = record {
      bits = valid;
      nonempty = omega (arith, v.nonempty);
      fits = omega (arith, v.fits);
    };
    same_min = refl;
    same_size = size;
    marked = λ j h. ground (arith, bits (j - t.min));
  },
)

-- Outside the pool both calls are refused.
pub invalid_id_outside :
    {t : IdTracker}
    → IsValid t
    → (id : ℕ) → ¬ (InPool t id)
    → (allocate_at t id ≡ err invalid_id) × (free t id ≡ err invalid_id)
unfolding allocate_at free
invalid_id_outside v id out = (rw (bit_index_outside v id out), rw (bit_index_outside v id out))

module _ {t : IdTracker} (v : IsValid t) (id : ℕ) (inside : InPool t id) where
  found : Bitmap.is_set t.bitmap (id - t.min) ≡ ok (taken t id)
  unfolding taken
  found = is_set-contents v.bits (id - t.min) (omega arith)

  -- In the pool, `allocate_at` takes a free identifier and refuses a taken one.
  pub allocate_at_lem :
      ((taken t id ≡ false) × (t' : IdTracker) × (allocate_at t id ≡ ok t') × Marks t id true t')
      ⊎ ((taken t id ≡ true) × (allocate_at t id ≡ err id_already_taken))
  unfolding allocate_at
  allocate_at_lem = elim (Bool-cases (taken t id)) [
    | inr is_free ↦
        let change = set-Changes v.bits (id - t.min) (omega arith) in
        let (bitmap, done, marks) = Marks-of_Changes v id inside true _ change in
        inl (
          is_free,
          record t { bitmap = bitmap },
          rw (bit_index-InPool v id inside, found, is_free, done),
          marks,
        )
    | inl is_taken ↦ inr (is_taken, rw (bit_index-InPool v id inside, found, is_taken))
  ]

  -- In the pool, `free` gives back a taken identifier and refuses a free one.
  pub free_lem :
      ((taken t id ≡ true) × (t' : IdTracker) × (free t id ≡ ok t') × Marks t id false t')
      ⊎ ((taken t id ≡ false) × (free t id ≡ err id_already_free))
  unfolding free
  free_lem = elim (Bool-cases (taken t id)) [
    | inl is_taken ↦
        let change = unset-Changes v.bits (id - t.min) (omega arith) in
        let (bitmap, done, marks) = Marks-of_Changes v id inside false _ change in
        inl (
          is_taken,
          record t { bitmap = bitmap },
          rw (bit_index-InPool v id inside, found, is_taken, done),
          marks,
        )
    | inr is_free ↦ inr (is_free, rw (bit_index-InPool v id inside, found, is_free))
  ]

-- A taken identifier can be given back.
pub free_taken :
    {t : IdTracker} (v : IsValid t) (id : ℕ) (inside : InPool t id)
    → taken t id ≡ true
    → (t' : IdTracker) × (free t id ≡ ok t') × Marks t id false t'
free_taken v id inside h = elim (free_lem v id inside) [
  | inl (_, t', done, marks) ↦ (t', done, marks)
  | inr (is_free, _) ↦ absurd (ground (arith, is_free))
]
