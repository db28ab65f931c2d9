-- ===== src/Tests/PagingRuns.antt =====
-- Runs of flags, of the page attribute table at its value after reset, and of entries of page tables.
use funderberker.Common.{
  ℕ, ◌+◌, ◌*◌, ◌^◌, ◌<◌, ◌≡◌, refl, arith, not, ◌&&◌, ◌||◌, false, leb, ◌≤◌, List, ok, panic, none,
  ◌==◌,
}
use funderberker.Bits.{bit, bit-zero, bit-or, bit-pow, bit_of_lt}
use funderberker.Paging.Flags
use funderberker.Paging.Flags.{
  Flags, get, set, join, get_present, get_write_through, get_cache_disable,
}
use funderberker.Paging.Entry.{Entry, get_flags, get_addr, map}
use funderberker.Paging.Entry.ReadBack.{map-read_back}
use funderberker.Paging.Entry.Taint.{map_pat-panics}
use funderberker.Paging.Ranges.{MappedPage, map_in_entry, Tiles, map_in_entry-Tiles}

-- The value of the register after reset, from the entry 7 down to the entry 0
abbrev reset_value : ℕ
reset_value = (((((((0 * 256 + 7) * 256 + 4) * 256 + 6) * 256 + 0) * 256 + 7) * 256 + 4) * 256) + 6

-- A page of 2MB at the address 4194304, with the flag that forbids execution
no_execute_middle : (k : ℕ) → 12 ≤ k → k < 21 → bit 9223372036854775810 k ≡ false
no_execute_middle k low high =
    ground (arith, bit-or 2 9223372036854775808 k, bit-pow 63 k, bit_of_lt 12 2 k)

map-read_back_example :
    (n : Entry) × (r : ℕ) × (map 0 4194304 9223372036854775810 (2 ^ 21) ≡ ok n)
    × (get_addr {E = ⊥} n (2 ^ 21) ≡ ok r)
    × (9223372036854775810 < 2 ^ 12 → r ≡ 4194304)
    × ((k : ℕ) → k < 64 → bit r k ≡ (bit 4194304 k || (leb 12 k && bit 9223372036854775810 k)))
    × ((k : ℕ)
        → k < 12
        → bit (get_flags n) k ≡ (
            bit 9223372036854775810 k
            || (0 == k)
            || (10 == k)
            || (not (2 ^ 21 == 4096) && (7 == k))))
unfolding get_flags bit Flags.get
map-read_back_example =
    map-read_back 0 4194304 9223372036854775810 21 (omega arith) (omega arith) (omega arith)
      (omega arith) refl refl refl (λ k le lt. bit-zero k) no_execute_middle

map_pat-panics_example :
    (n : Entry) × (map 0 4194304 4096 (2 ^ 21) ≡ ok n) × (get_addr {E = ⊥} n (2 ^ 21) ≡ panic)
unfolding get_flags bit Flags.get
map_pat-panics_example =
    map_pat-panics 0 4194304 4096 21 (omega arith) (omega arith) (omega arith) refl refl refl refl

map_in_entry-Tiles_example :
    (pages : List MappedPage) × (map_in_entry 513 2093056 2093056 2101248 2 none ≡ ok pages)
    × Tiles 2093056 2093056 2101248 pages
map_in_entry-Tiles_example =
    map_in_entry-Tiles 513 2093056 2093056 2101248 2 none refl refl refl (omega arith) (omega arith)
      (omega arith)
