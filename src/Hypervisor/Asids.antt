-- ===== src/Hypervisor/Asids.antt =====
-- The address space identifiers of guests: the allocator after some of them were handed out.
use funderberker.Common.{
  ℕ, ◌+◌, Bool, ◌∙◌, dec_lt, ◌-◌, ◌≤◌, ◌<◌, ◌≡◌, refl, arith, true, false, leb, inl, inr, ok, err,
  usize_mod,
}
use funderberker.Bitmap
use funderberker.Bitmap.Resize.{new-IsValid}
use funderberker.Id.Tracker
use funderberker.Id.Tracker.{IdTracker, out_of_ids, new}
use funderberker.Id.Tracker.State.{IsValid, taken}
use funderberker.Id.Tracker.Allocate.{allocate-Allocates}
use funderberker.Hypervisor.{Host, init_asid_allocator}

-- Of the identifiers from 1 to `n`, those up to `k` are taken.
pub record Handed (n : ℕ) (k : ℕ) (t : IdTracker) : Type 0 where
  pub valid : IsValid t
  pub first : t.min ≡ 1
  pub size : t.bitmap.used_bits_count ≡ n
  pub below : (j : ℕ) → 1 ≤ j → j ≤ n → taken t j ≡ leb j k

-- After the set-up none of them is taken.
pub init_asid_allocator-Handed :
    {E : Type 0} (host : Host)
    → 0 < host.svm_ebx
    → host.svm_ebx + 1 < usize_mod
    → (t : IdTracker) × (init_asid_allocator {E = E} host ≡ ok (record host { asid_allocator = t }))
      × Handed host.svm_ebx 0 t
unfolding init_asid_allocator new taken
init_asid_allocator-Handed host some fits =
    let n = host.svm_ebx in
    let (bits, size, clear) = new-IsValid (n - 1 + 1) in
    (
      record { bitmap = Bitmap.new (n - 1 + 1); min = 1 },
      ground arith,
      record {
        valid = record { bits = bits; nonempty = omega arith; fits = omega arith };
        first = refl;
        size = omega arith;
        below = λ j low high. let none : leb j 0 ≡ false = ground arith in rw none (clear (j - 1));
      },
    )

clash : {A : Type 0} {b : Bool} → b ≡ false → b ≡ true → A
clash h h' = cc

-- The next identifier that is handed out is the next number.
pub allocate-Handed :
    {n k : ℕ} {t : IdTracker}
    → Handed n k t
    → k < n
    → (t' : IdTracker) × (Tracker.allocate t ≡ ok (k + 1, t')) × Handed n (k + 1) t'
allocate-Handed {n} {k} {t} handed more =
    let at_next = handed.below (k + 1) (omega arith) (omega arith) in
    let free_next : taken t (k + 1) ≡ false = ground (arith, at_next) in
    elim (allocate-Allocates handed.valid) [
      | inr (_, all) ↦
          clash free_next
            (all (k + 1) (omega (arith, handed.first), omega (arith, handed.first, handed.size)))
      | inl (id, t', granted, inside, free, before, marks) ↦
          let at_id =
            handed.below id (omega (arith, handed.first, inside.0))
              (omega (arith, handed.first, handed.size, inside.1)) in
          let above : k < id = ground (arith, at_id, free) in
          let next : id ≡ k + 1 = elim (dec_lt (k + 1) id) [
            | yes skips ↦ clash free_next (before (k + 1) (omega (arith, handed.first)) skips)
            | no close ↦ omega arith
          ] in
          (
            t',
            rw (← next) granted,
            record {
              valid = marks.valid;
              first = marks.same_min ∙ handed.first;
              size = marks.same_size ∙ handed.size;
              below = λ j low high.
                  let old = handed.below j low high in
                  let new =
                    marks.marked j
                      (omega (arith, handed.first), omega (arith, handed.first, handed.size)) in
                  ground (arith, old, new, next);
            },
          )
    ]

-- When all are taken there is none to hand out.
pub allocate-Handed_all :
    {n : ℕ} {t : IdTracker} → Handed n n t → Tracker.allocate t ≡ err out_of_ids
allocate-Handed_all {n} {t} handed = elim (allocate-Allocates handed.valid) [
  | inr (none_left, _) ↦ none_left
  | inl (id, t', granted, inside, free, before, marks) ↦
      let at_id =
        handed.below id (omega (arith, handed.first, inside.0))
          (omega (arith, handed.first, handed.size, inside.1)) in
      let high : id ≤ n = omega (arith, handed.first, handed.size, inside.1) in
      let on : leb id n ≡ true = ground arith in clash free (at_id ∙ on)
]
