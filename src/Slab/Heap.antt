-- ===== src/Slab/Heap.antt =====
-- slab/src/heap.rs: the kernel's heap, eight slab allocators by the size of their objects. The locks
-- around them are not modelled: each call runs on its own.
use funderberker.Common.{
  ℕ, ◌+◌, ◌-◌, ◌*◌, ◌/◌, Bool, ◌&&◌, ◌==◌, leb, if◌then◌else◌, List, [], ◌∷◌, length, Option, none,
  Outcome, ok, err, panic, ◌>>=◌, unwrap,
}
use funderberker.Slab
use funderberker.Slab.{Layout, InternalSlabAllocator, SlabError, reap_loop}

pub data SizeClass : Type 0 where
  slab_32 slab_64 slab_128 slab_256 slab_512 slab_1024 slab_2048 slab_4096 : SizeClass

-- The size and the alignment of the objects of a class
abbrev pub class_bytes : SizeClass → ℕ
class_bytes slab_32 = 32
class_bytes slab_64 = 64
class_bytes slab_128 = 128
class_bytes slab_256 = 256
class_bytes slab_512 = 512
class_bytes slab_1024 = 1024
class_bytes slab_2048 = 2048
class_bytes slab_4096 = 4096

abbrev pub Heap : Type 0
Heap = SizeClass → InternalSlabAllocator

unfoldable pub new_heap : Heap
unfolding Slab.new
new_heap c = Slab.new (record { size = class_bytes c; align = class_bytes c })

-- `Layout::pad_to_align`
abbrev pub pad_to_align : Layout → Layout
pad_to_align l = record l { size = (l.size + l.align - 1) / l.align * l.align }

abbrev pub fits_in : Layout → SizeClass → Bool
fits_in l c = leb l.size (class_bytes c) && leb l.align (class_bytes c)

unfoldable pub layout_to_allocator : Layout → Outcome SlabError SizeClass
layout_to_allocator layout =
    let l = pad_to_align layout in
    if fits_in l slab_32
    then ok slab_32
    else if fits_in l slab_64
    then ok slab_64
    else if fits_in l slab_128
    then ok slab_128
    else if fits_in l slab_256
    then ok slab_256
    else if fits_in l slab_512
    then ok slab_512
    else if fits_in l slab_1024
    then ok slab_1024
    else if fits_in l slab_2048
    then ok slab_2048
    else if fits_in l slab_4096
    then ok slab_4096
    else panic

abbrev update : Heap → SizeClass → InternalSlabAllocator → Heap
update h c a d = if class_bytes d == class_bytes c then a else h d

-- `alloc`, with what `allocate_pages` returns; `none` is the null pointer, which stands for any error.
unfoldable pub alloc : Heap → Layout → Option ℕ → Outcome SlabError (Option ℕ × Heap)
unfolding layout_to_allocator Slab.allocate
alloc h layout pages = do
  c ← layout_to_allocator layout
  elim (Slab.allocate (h c) pages) [
    | ok (ptr, a) ↦ ok (ptr, update h c a)
    | err e ↦ ok (none, h)
    | panic ↦ panic
  ]

-- `dealloc` of a pointer that is not null
unfoldable pub dealloc : Heap → ℕ → Layout → Outcome SlabError Heap
unfolding layout_to_allocator Slab.free
dealloc h ptr layout = do
  c ← layout_to_allocator layout
  a ← unwrap (Slab.free (h c) ptr)
  ok (update h c a)

unfoldable reap_classes : Heap → List SizeClass → Outcome SlabError (ℕ × Heap)
reap_classes h [] = ok (0, h)
reap_classes h (c ∷ classes) = do
  (buffers, slabs) ← reap_loop (h c).slabs
  (total, h') ← reap_classes (update h c (record (h c) { slabs = slabs })) classes
  ok (length buffers + total, h')

unfoldable pub reap : Heap → Outcome SlabError (ℕ × Heap)
unfolding reap_classes reap_loop
reap h =
    reap_classes h
      (slab_64 ∷ slab_128 ∷ slab_256 ∷ slab_512 ∷ slab_1024 ∷ slab_2048 ∷ slab_4096 ∷ [])
