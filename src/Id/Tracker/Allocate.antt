-- ===== src/Id/Tracker/Allocate.antt =====
-- `new` and `allocate` against the set of taken identifiers.
use funderberker.Common.{
  ℕ, zero, suc, ◌+◌, ◌-◌, ◌≤◌, ◌<◌, ◌≡◌, refl, arith, true, false, Outcome, ok, err, usize_mod,
  dec_lt, ltb, Bool-cases, ◌⊎◌, inl, inr,
}
use mathlib.Core.Path.{subst₂}
use funderberker.Bitmap
use funderberker.Bitmap.Contents.{is_set-contents}
use funderberker.Bitmap.Methods.{set-Changes}
use funderberker.Bitmap.Resize.{new-IsValid}
use funderberker.Id.Tracker.{
  IdTracker, IdTrackerError, out_of_ids, new, allocate_loop, allocate, free,
}
use funderberker.Id.Tracker.State.{IsValid, InPool, taken, Marks}
use funderberker.Id.Tracker.At.{Marks-of_Changes, free_taken}

-- A pool `min ..= max` that ends below the largest `usize` gives a well-formed tracker of exactly
-- that pool in which every identifier is free.
pub new-IsValid_tracker :
    (min max : ℕ)
    → min ≤ max
    → max + 1 < usize_mod
    → (t : IdTracker) × (new min max ≡ ok t)
      × IsValid t
      × ((id : ℕ) → InPool t id → (min ≤ id) × (id ≤ max))
      × ((id : ℕ) → taken t id ≡ false)
unfolding new taken
new-IsValid_tracker min max h fits =
    let (bits, size, clear) = new-IsValid (max - min + 1) in
    (
      record { bitmap = Bitmap.new (max - min + 1); min = min },
      ground arith,
      record { bits = bits; nonempty = omega arith; fits = omega arith },
      λ id inside. omega arith,
      λ id. clear (id - min),
    )

-- What `allocate` promises: the least free identifier of the pool, now taken, or the error when
-- every identifier of the pool is taken.
abbrev pub Allocates : IdTracker → Outcome IdTrackerError (ℕ × IdTracker) → Type 0
Allocates t o =
    ((id : ℕ) × (t' : IdTracker) × (o ≡ ok (id, t'))
      × InPool t id
      × (taken t id ≡ false)
      × ((j : ℕ) → t.min ≤ j → j < id → taken t j ≡ true)
      × Marks t id true t')
    ⊎ ((o ≡ err out_of_ids) × ((j : ℕ) → InPool t j → taken t j ≡ true))

module _ {t : IdTracker} (v : IsValid t) where
  abbrev TakenBelow : ℕ → Type 0
  TakenBelow i = (j : ℕ) → t.min ≤ j → j < t.min + i → taken t j ≡ true

  read :
      (i : ℕ) → i < t.bitmap.used_bits_count → Bitmap.is_set t.bitmap i ≡ ok (taken t (t.min + i))
  unfolding taken
  read i h = let e : t.min + i - t.min ≡ i = omega arith in rw e (is_set-contents v.bits i h)

  TakenBelow-suc : (i : ℕ) → TakenBelow i → taken t (t.min + i) ≡ true → TakenBelow (i + 1)
  TakenBelow-suc i below here j lo hi = elim (dec_lt j (t.min + i)) [
    | yes lt ↦ below j lo lt
    | no ge ↦ let e : j ≡ t.min + i = omega arith in rw e here
  ]

  allocate_loop-Allocates :
      (n i : ℕ)
      → i + n ≡ t.bitmap.used_bits_count
      → TakenBelow i
      → Allocates t (allocate_loop t n i)
  unfolding allocate_loop
  allocate_loop-Allocates zero i e below = inr (refl, λ j h. below j h.0 (omega arith))
  allocate_loop-Allocates (suc n) i e below = elim (Bool-cases (taken t (t.min + i))) [
    | inl is_taken ↦
        rw (read i (omega arith), is_taken)
          (allocate_loop-Allocates n (i + 1) (omega arith) (TakenBelow-suc i below is_taken))
    | inr is_free ↦
        let inside : InPool t (t.min + i) = omega arith in
        let change = set-Changes v.bits (t.min + i - t.min) (omega arith) in
        let (bitmap, done, marks) = Marks-of_Changes v (t.min + i) inside true _ change in
        let e' : t.min + i - t.min ≡ i = omega arith in
        let done' : Bitmap.set t.bitmap i ≡ ok bitmap = rw e' at done in
        let fits : ltb (t.min + i) usize_mod ≡ true = ground (arith, v.fits) in
        inl (
          t.min + i,
          record t { bitmap = bitmap },
          rw (read i (omega arith), is_free, fits, done'),
          inside,
          is_free,
          below,
          marks,
        )
  ]

  -- In a valid tracker `allocate` hands out the least free identifier and marks it as taken, and reports that there
  -- is none exactly when all are taken.
  pub allocate-Allocates : Allocates t (allocate t)
  unfolding allocate
  allocate-Allocates =
      allocate_loop-Allocates t.bitmap.used_bits_count 0 (omega arith)
        (λ j lo hi. absurd (omega arith))

  -- What `allocate` handed out can be given back, and then the tracker is as before.
  pub free-allocate_id :
      {t' : IdTracker} (id : ℕ)
      → allocate t ≡ ok (id, t')
      → (t'' : IdTracker) × (free t' id ≡ ok t'')
        × IsValid t''
        × ((j : ℕ) → InPool t j → taken t'' j ≡ taken t j)
  free-allocate_id {t'} id e = from_cases allocate-Allocates
    where
      from_cases :
          Allocates t (allocate t)
          → (t'' : IdTracker) × (free t' id ≡ ok t'')
            × IsValid t''
            × ((j : ℕ) → InPool t j → taken t'' j ≡ taken t j)
      from_cases (inr (none_left, _)) = cc
      from_cases (inl (least, t₁, got, inside, is_free, below, marks)) =
          let same_id : least ≡ id = cc in
          let same_state : t₁ ≡ t' = cc in
          let marked : Marks t id true t' =
            subst₂ (λ k s. Marks t k true s) same_id same_state marks in
          let free_before : taken t id ≡ false = rw (← same_id) is_free in
          let inside' : InPool t' id = omega (arith, marked.same_min, marked.same_size) in
          let taken_now : taken t' id ≡ true =
            rw (marked.marked id (omega (arith, inside, same_id))) (ground arith) in
          let (t'', done, back) = free_taken marked.valid id inside' taken_now in
          (
            t'',
            done,
            back.valid,
            λ j h. ground (
              arith,
              back.marked j (omega (arith, marked.same_min, marked.same_size)),
              marked.marked j h,
            ),
          )
