-- ===== src/Slab.antt =====
-- slab/src/internal.rs: the slab allocator, with pointers as addresses and the list of free objects
-- (utils/src/collections/stacklist.rs) as the sequence of their addresses from the head on.
pub mod Single
pub mod Counts
pub mod Heap
use funderberker.Common.{
  ℕ, zero, suc, ◌+◌, ◌-◌, ◌*◌, ◌/◌, ◌%◌, max, Bool, true, false, not, ◌&&◌, ◌||◌, Option, none,
  some, List, [], ◌∷◌, ◌++◌, ◌==◌, leb, ltb, if◌then◌else◌, Outcome, ok, err, panic, ◌>>=◌, ◌>>◌,
  assert, reject, unwrap_option, sub_usize, bit_and, ok_or,
}
use funderberker.Bits.{bit_not}
use funderberker.Pmm.{basic_page_size}
use funderberker.LinkedList

pub data SlabError : Type 0 where
  bad_ptr_range double_free slab_full_internal_error paging_error invalid_layout : SlabError

-- `core::alloc::Layout`
pub record Layout : Type 0 where
  pub size : ℕ
  pub align : ℕ

pub record Slab : Type 0 where
  pub buffer : ℕ
  pub free_objects : List ℕ
  pub allocated_count : ℕ
  pub capacity : ℕ

pub record InternalSlabAllocator : Type 0 where
  pub slabs : List Slab
  pub page_count : ℕ
  pub object_count : ℕ
  pub layout : Layout

-- The sizes of the nodes of the two kinds of list, which hold one pointer and seven words.
abbrev object_node_size : ℕ
object_node_size = 8

abbrev slab_node_size : ℕ
slab_node_size = 56

abbrev node_align : ℕ
node_align = 8

abbrev pub is_aligned_to : ℕ → ℕ → Bool
is_aligned_to addr align = addr % align == 0

-- The test for a free object that stands at the address
unfoldable pub holds_object : ℕ → List ℕ → Bool
holds_object ptr [] = false
holds_object ptr (x ∷ xs) = (x == ptr) || holds_object ptr xs

-- `for i in 0..capacity` of `Slab::new`, with the rounds that are left.
unfoldable pub new_loop : ℕ → ℕ → ℕ → Layout → List ℕ → Outcome SlabError (List ℕ)
new_loop zero i buffer layout free_objects = ok free_objects
new_loop (suc rounds) i buffer layout free_objects =
    let object_ptr = buffer + i * layout.size in
    reject (not (is_aligned_to object_ptr layout.align)) invalid_layout
    >> new_loop rounds (i + 1) buffer layout (object_ptr ∷ free_objects)

-- `Slab::new`
unfoldable pub new_slab : ℕ → ℕ → Layout → Outcome SlabError Slab
unfolding new_loop
new_slab buffer capacity layout = do
  free_objects ← new_loop capacity 0 buffer layout []
  ok (record {
    buffer = buffer;
    free_objects = free_objects;
    allocated_count = 0;
    capacity = capacity;
  })

abbrev pub contains_ptr : Slab → ℕ → Layout → Bool
contains_ptr s ptr layout = leb s.buffer ptr && ltb ptr (s.buffer + s.capacity * layout.size)

abbrev pub is_empty : Slab → Bool
is_empty s = s.allocated_count == 0

-- `Slab::allocate`, with the slab as every branch leaves it.
unfoldable pub allocate_slab : Slab → Layout → Outcome SlabError ℕ × Slab
allocate_slab s layout = elim s.free_objects [
  | [] ↦ (err slab_full_internal_error, s)
  | ptr ∷ rest ↦
      let s' = record s { free_objects = rest; allocated_count = s.allocated_count + 1 } in
      if is_aligned_to ptr layout.align then (ok ptr, s') else (err invalid_layout, s')
]

-- `Slab::free`; the difference on ℕ is the saturating one.
unfoldable pub free_slab : Slab → ℕ → Layout → Outcome SlabError Slab
unfolding holds_object
free_slab s ptr layout = do
  offset ← sub_usize ptr s.buffer
  reject (not (offset % layout.size == 0)) bad_ptr_range
  reject (holds_object ptr s.free_objects) double_free
  ok (record s { free_objects = ptr ∷ s.free_objects; allocated_count = s.allocated_count - 1 })

-- `adjust_layout`
unfoldable pub adjust_layout : Layout → Layout
adjust_layout layout = record {
  size = max layout.size object_node_size;
  align = max layout.align node_align;
}

unfoldable pub calculate_object_count : Layout → ℕ → ℕ
calculate_object_count layout page_count =
    let available = page_count * basic_page_size - slab_node_size in
    (available - available % node_align) / layout.size

-- `InternalSlabAllocator::new`
unfoldable pub new : Layout → InternalSlabAllocator
unfolding adjust_layout calculate_object_count
new layout =
    let adjusted = adjust_layout layout in
    record {
      slabs = [];
      page_count = 1;
      object_count = calculate_object_count adjusted 1;
      layout = adjusted;
    }

-- The loop of `allocate` over the slabs: the first object that one gives, and the slabs.
unfoldable pub allocate_from : Layout → List Slab → Option ℕ × List Slab
unfolding allocate_slab
allocate_from layout [] = (none, [])
allocate_from layout (s ∷ slabs) =
    let (result, s') = allocate_slab s layout in
    let (later, slabs') = allocate_from layout slabs in
    elim result [ ok ptr ↦ (some ptr, s' ∷ slabs) | _ ↦ (later, s' ∷ slabs') ]

-- The loop of `free` over the slabs, and the error behind it.
unfoldable pub free_from : Layout → ℕ → List Slab → Outcome SlabError (List Slab)
unfolding free_slab
free_from layout ptr [] = err bad_ptr_range
free_from layout ptr (s ∷ slabs) =
    let later = free_from layout ptr slabs in
    if contains_ptr s ptr layout
    then (do s' ← free_slab s ptr layout; ok (s' ∷ slabs))
    else (do slabs' ← later; ok (s ∷ slabs'))

-- `InternalSlabAllocator::free`
unfoldable pub free : InternalSlabAllocator → ℕ → Outcome SlabError InternalSlabAllocator
unfolding free_from
free a ptr = do
  reject (not (is_aligned_to ptr a.layout.align)) bad_ptr_range
  slabs ← free_from a.layout ptr a.slabs
  ok (record a { slabs = slabs })

abbrev align_up : ℕ → ℕ → ℕ
align_up value align = bit_and (value + align - 1) (bit_not 64 (align - 1))

-- `grow` with the pages that `allocate_pages` returned, and `none` for its error.
unfoldable pub grow : InternalSlabAllocator → Option ℕ → Outcome SlabError InternalSlabAllocator
unfolding new_slab
grow a pages = do
  buffer ← ok_or pages paging_error
  let metadata_offset = align_up (a.object_count * a.layout.size) node_align
  assert (leb (metadata_offset + slab_node_size) (a.page_count * basic_page_size))
  slab ← new_slab buffer a.object_count a.layout
  ok (record a { slabs = LinkedList.push_back a.slabs slab })

-- `allocate` from the slab at the back of the list
unfoldable pub allocate_back : Layout → List Slab → Option ℕ × List Slab
unfolding allocate_slab
allocate_back layout [] = (none, [])
allocate_back layout (s ∷ []) =
    let (result, s') = allocate_slab s layout in
    elim result [ ok ptr ↦ (some ptr, s' ∷ []) | _ ↦ (none, s' ∷ []) ]
allocate_back layout (s ∷ t ∷ slabs) =
    let (result, rest) = allocate_back layout (t ∷ slabs) in (result, s ∷ rest)

-- `InternalSlabAllocator::allocate`, with what `allocate_pages` returns when the slabs have no space.
-- `none` is the error that the slabs are full even then.
unfoldable pub allocate :
    InternalSlabAllocator → Option ℕ → Outcome SlabError (Option ℕ × InternalSlabAllocator)
unfolding allocate_from allocate_back grow
allocate a pages =
    let (found, slabs) = allocate_from a.layout a.slabs in
    elim found [
      | some ptr ↦ ok (some ptr, record a { slabs = slabs })
      | none ↦ do
        a' ← grow (record a { slabs = slabs }) pages
        let (again, slabs') = allocate_back a.layout a'.slabs
        ok (again, record a' { slabs = slabs' })
    ]

-- `reap`: the buffers whose pages are freed, with the slabs that are left. The sanity check is that of
-- the development profile.
unfoldable pub reap_loop : List Slab → Outcome SlabError (List ℕ × List Slab)
reap_loop [] = ok ([], [])
reap_loop (s ∷ slabs) =
    let later = reap_loop slabs in
    if is_empty s
    then (do
      assert (s.buffer % basic_page_size == 0)
      (buffers, left) ← later
      ok (s.buffer ∷ buffers, left))
    else ok ([], s ∷ slabs)
