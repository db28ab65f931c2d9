-- ===== src/Slab/Single.antt =====
-- A slab on its own: which objects are free, which are in use.
use native.Mathlib.Nat.{add-mul-mod_self_right, mod-eq_of_lt, div-add-mod', mul_assoc}
use funderberker.Common.{
  ℕ, zero, suc, ◌+◌, ◌-◌, ◌*◌, ◌/◌, ◌%◌, sym, ◌≤◌, ◌<◌, ◌≡◌, refl, ap, ◌∙◌, arith, Bool, true, ◌&&◌,
  List, [], ◌∷◌, ◌==◌, leb, ltb, if◌then◌else◌, length, ok, err,
}
use funderberker.Slab.{
  Layout, Slab, new_loop, new_slab, allocate_slab, free_slab, contains_ptr, is_aligned_to,
  double_free, bad_ptr_range,
}
use funderberker.Slab.Counts.{count, erase, count-erase, length-erase, holds_object-count}

-- An object of the first `n` of a buffer begins at the address.
abbrev pub object_below : ℕ → ℕ → ℕ → ℕ → Bool
object_below buffer size n x =
    leb buffer x && ltb x (buffer + n * size) && ((x - buffer) % size == 0)

abbrev pub is_object : Slab → Layout → ℕ → Bool
is_object s layout x = object_below s.buffer layout.size s.capacity x

-- Every object of the slab, and no other address, is either free or in use, once; the slab counts
-- those in use, and all have the alignment.
abbrev pub IsValid : Layout → List ℕ → Slab → Type 0
IsValid layout live s =
    ((x : ℕ) → count x live + count x s.free_objects ≡ (if is_object s layout x then 1 else 0))
    × (s.allocated_count ≡ length live)
    × ((x : ℕ) → is_object s layout x ≡ true → is_aligned_to x layout.align ≡ true)

last_object :
    (size i y : ℕ)
    → 0 < size
    → i * size ≤ y
    → y < i * size + size
    → (y % size == 0) ≡ (y == i * size)
last_object size i y pos le lt =
    let r = y - i * size in
    let f : y ≡ r + i * size = omega arith in
    let e : y % size ≡ r =
      ap (λ w. w % size) f ∙ add-mul-mod_self_right r i size ∙ mod-eq_of_lt (omega arith) in
    ground (arith, e)

object_step :
    (buffer size i x : ℕ)
    → 0 < size
    → (if buffer + i * size == x then 1 else 0) + (if object_below buffer size i x then 1 else 0)
      ≡ (if object_below buffer size (i + 1) x then 1 else 0)
object_step buffer size i x pos =
    let e : (i + 1) * size ≡ i * size + size = grind arith in
    rw e (ground (arith, last_object size i (x - buffer) pos))

aligned_object :
    (buffer size align i : ℕ)
    → buffer % align ≡ 0
    → size % align ≡ 0
    → (buffer + i * size) % align ≡ 0
aligned_object buffer size align i base step =
    let e : size ≡ size / align * align = omega (arith, div-add-mod' size align) in
    let f : i * size ≡ i * (size / align) * align = ap (λ n. i * n) e ∙ sym (mul_assoc _ _ _) in
    rw f (add-mul-mod_self_right buffer (i * (size / align)) align ∙ base)

object_aligned :
    (buffer n : ℕ) (layout : Layout)
    → buffer % layout.align ≡ 0
    → layout.size % layout.align ≡ 0
    → (x : ℕ) → object_below buffer layout.size n x ≡ true
    → is_aligned_to x layout.align ≡ true
object_aligned buffer n layout base step x object =
    let k = (x - buffer) / layout.size in
    let e : x ≡ buffer + k * layout.size = ground (arith, div-add-mod' (x - buffer) layout.size) in
    rw e (ground (arith, aligned_object buffer layout.size layout.align k base step))

-- The loop fills the list with every object of its rounds, once.
new_loop_lem :
    (buffer : ℕ) (layout : Layout)
    → 0 < layout.size
    → buffer % layout.align ≡ 0
    → layout.size % layout.align ≡ 0
    → (rounds i : ℕ) (free_objects : List ℕ)
    → ((x : ℕ) → count x free_objects ≡ (if object_below buffer layout.size i x then 1 else 0))
    → (filled : List ℕ) × (new_loop rounds i buffer layout free_objects ≡ ok filled)
      × ((x : ℕ)
          → count x filled ≡ (if object_below buffer layout.size (i + rounds) x then 1 else 0))
unfolding new_loop
new_loop_lem buffer layout pos base step zero i free_objects h =
    let e : i + 0 ≡ i = omega arith in (free_objects, refl, rw e h)
new_loop_lem buffer layout pos base step (suc rounds) i free_objects h =
    let at : is_aligned_to (buffer + i * layout.size) layout.align ≡ true =
      ground (arith, aligned_object buffer layout.size layout.align i base step) in
    let shift : i + suc rounds ≡ i + 1 + rounds = omega arith in
    let (filled, e, f) =
      new_loop_lem buffer layout pos base step rounds (i + 1)
        ((buffer + i * layout.size) ∷ free_objects)
        (λ x. ground (arith, object_step buffer layout.size i x pos, h x)) in
    (filled, rw at e, rw shift f)

all_free :
    (buffer capacity : ℕ) (layout : Layout) (filled : List ℕ)
    → ((x : ℕ)
        → count x filled ≡ (if object_below buffer layout.size (0 + capacity) x then 1 else 0))
    → (x : ℕ) → 0 + count x filled ≡ (if object_below buffer layout.size capacity x then 1 else 0)
all_free buffer capacity layout filled f x =
    let shift : 0 + capacity ≡ capacity = omega arith in
    let e = rw shift at (f x) in omega (arith, e)

-- A new slab over a buffer that has the alignment of the objects, whose size is a multiple of it: every
-- object is free, and none is in use.
pub new_slab-IsValid :
    (buffer capacity : ℕ) (layout : Layout)
    → 0 < layout.size
    → buffer % layout.align ≡ 0
    → layout.size % layout.align ≡ 0
    → (s : Slab) × (new_slab buffer capacity layout ≡ ok s)
      × (s.buffer ≡ buffer)
      × (s.capacity ≡ capacity)
      × IsValid layout [] s
unfolding new_slab
new_slab-IsValid buffer capacity layout pos base step =
    let (filled, e, f) =
      new_loop_lem buffer layout pos base step capacity 0 [] (λ x. ground arith) in
    (
      record { buffer = buffer; free_objects = filled; allocated_count = 0; capacity = capacity },
      rw e refl,
      refl,
      refl,
      (
        all_free buffer capacity layout filled f,
        refl,
        object_aligned buffer capacity layout base step,
      ),
    )

allocate_slab_step :
    (buffer allocated_count capacity : ℕ) (free_objects : List ℕ) (layout : Layout) (live : List ℕ)
    → let s : Slab = record {
      buffer = buffer;
      free_objects = free_objects;
      allocated_count = allocated_count;
      capacity = capacity;
    } in
      IsValid layout live s
      → 1 ≤ length free_objects
      → (ptr : ℕ) × (s' : Slab) × (allocate_slab s layout ≡ (ok ptr, s'))
        × (is_object s layout ptr ≡ true)
        × (count ptr live ≡ 0)
        × IsValid layout (ptr ∷ live) s'
unfolding allocate_slab
allocate_slab_step buffer n capacity [] layout live h some_free = absurd (omega arith)
allocate_slab_step buffer n capacity (ptr ∷ rest) layout live (counts, len, aligned) some_free =
    let object : object_below buffer layout.size capacity ptr ≡ true = ground (arith, counts ptr) in
    (
      ptr,
      record { buffer = buffer; free_objects = rest; allocated_count = n + 1; capacity = capacity },
      rw (aligned ptr object) refl,
      object,
      ground (arith, counts ptr),
      (λ x. ground (arith, counts x), omega (arith, len), aligned),
    )

-- Allocating from a valid slab with a free object gives an object that was free; it is in use afterwards, and
-- the slab stays valid.
pub allocate_slab_lem :
    (s : Slab) (layout : Layout) (live : List ℕ)
    → IsValid layout live s
    → 1 ≤ length s.free_objects
    → (ptr : ℕ) × (s' : Slab) × (allocate_slab s layout ≡ (ok ptr, s'))
      × (is_object s layout ptr ≡ true)
      × (count ptr live ≡ 0)
      × IsValid layout (ptr ∷ live) s'
unfolding allocate_slab
allocate_slab_lem s layout live valid some_free =
    allocate_slab_step s.buffer s.allocated_count s.capacity s.free_objects layout live valid
      some_free

-- Freeing an object that is in use of a valid slab puts it into the free list once, and the slab stays valid.
pub free_slab_lem :
    (s : Slab) (layout : Layout) (live : List ℕ) (ptr : ℕ)
    → IsValid layout live s
    → 1 ≤ count ptr live
    → (s' : Slab) × (free_slab s ptr layout ≡ ok s')
      × (count ptr s'.free_objects ≡ 1)
      × IsValid layout (erase ptr live) s'
unfolding free_slab
free_slab_lem s layout live ptr (counts, len, aligned) in_use =
    let object : is_object s layout ptr ≡ true = ground (arith, counts ptr) in
    let taken : count ptr s.free_objects ≡ 0 = ground (arith, counts ptr) in
    (
      record s { free_objects = ptr ∷ s.free_objects; allocated_count = s.allocated_count - 1 },
      ground (arith, holds_object-count ptr s.free_objects),
      ground arith,
      (
        λ x. ground (arith, counts x, count-erase ptr x live in_use),
        omega (arith, len, length-erase ptr live in_use),
        aligned,
      ),
    )

-- Freeing an object that is free is an error, as is freeing what lies between two objects.
pub free_slab_refuses :
    (s : Slab) (layout : Layout) (live : List ℕ) (ptr : ℕ)
    → IsValid layout live s
    → count ptr live ≡ 0
    → contains_ptr s ptr layout ≡ true
    → free_slab s ptr layout
      ≡ (if (ptr - s.buffer) % layout.size == 0 then err double_free else err bad_ptr_range)
unfolding free_slab
free_slab_refuses s layout live ptr (counts, len, aligned) not_live inside =
    ground (arith, counts ptr, holds_object-count ptr s.free_objects)
