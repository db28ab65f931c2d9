-- ===== src/Paging/Pat.antt =====
-- kernel/src/arch/x86_64/paging/pat.rs: the page attribute table, with the value of the MSR
-- `IA32_PAT` as the state that `rdmsr` and `wrmsr` pass on, and `set_pat` of flags.rs. The `edx` that
-- `cpuid` leaf 1 returns is a parameter of `setup_pat`.
pub mod Laws
use funderberker.Common.{
  ℕ, ◌*◌, ◌/◌, ◌%◌, ◌^◌, Bool, not, bit_and, bit_or, ◌==◌, if◌then◌else◌, Outcome, ok, err, panic,
  ◌>>=◌, ◌>>◌, assert, unwrap,
}
use funderberker.Bits.{bit_not}
use funderberker.Paging.Flags.{Flags, set_pat_4kb, set_pat_big_pages, set_pwt, set_pcd}
use funderberker.Paging.Flags
use funderberker.Paging.PageSize.{PageSize, size_4kb}

pub data PatType : Type 0 where
  uncacheable write_combining write_through write_protected write_back uncached : PatType

-- the discriminants of `PatType`
unfoldable pub type_bits : PatType → ℕ
type_bits uncacheable = 0
type_bits write_combining = 1
type_bits write_through = 4
type_bits write_protected = 5
type_bits write_back = 6
type_bits uncached = 7

pub data PatEntry : Type 0 where
  pat0 pat1 pat2 pat3 pat4 pat5 pat6 pat7 : PatEntry

-- the discriminants of `PatEntry`
unfoldable pub entry_index : PatEntry → ℕ
entry_index pat0 = 0
entry_index pat1 = 1
entry_index pat2 = 2
entry_index pat3 = 3
entry_index pat4 = 4
entry_index pat5 = 5
entry_index pat6 = 6
entry_index pat7 = 7

abbrev pub shifting_size : ℕ
shifting_size = 8

unfoldable pub set_field : ℕ → ℕ → ℕ → ℕ
set_field pat index value =
    let cleared = bit_and pat (bit_not 64 (7 * 2 ^ (index * shifting_size))) in
    bit_or cleared (value * 2 ^ (index * shifting_size))

unfoldable pub get_field : ℕ → ℕ → ℕ
get_field pat index = bit_and (pat / 2 ^ (index * shifting_size)) 7

-- `PatEntry::set`, from the value of the MSR to its next value
unfoldable pub set : ℕ → PatEntry → PatType → ℕ
unfolding set_field entry_index type_bits
set pat entry pat_type = set_field pat (entry_index entry) (type_bits pat_type)

unfoldable pub try_from : ℕ → Outcome (Unit {0}) PatType
try_from value =
    if value == 0
    then ok uncacheable
    else if value == 1
    then ok write_combining
    else if value == 4
    then ok write_through
    else if value == 5
    then ok write_protected
    else if value == 6
    then ok write_back
    else if value == 7
    then ok uncached
    else err tt

unfoldable pub get_type : {E : Type 0} → ℕ → PatEntry → Outcome E PatType
unfolding get_field entry_index try_from
get_type pat self = unwrap (try_from (get_field pat (entry_index self)))

unfoldable pub from_type : PatType → PatEntry
from_type write_back = pat0
from_type write_through = pat1
from_type uncached = pat2
from_type uncacheable = pat3
from_type write_combining = pat4
from_type write_protected = pat5

abbrev check_pat_support : {E : Type 0} → ℕ → Outcome E (Unit {0})
check_pat_support edx = assert (not (bit_and edx (2 ^ 16) == 0))

unfoldable pub setup_pat : {E : Type 0} → ℕ → ℕ → Outcome E ℕ
unfolding set
setup_pat edx msr =
    check_pat_support edx
    >> (let a = set msr pat0 write_back in
        let b = set a pat1 write_through in
        let c = set b pat2 uncached in
        let d = set c pat3 uncacheable in
        let e = set d pat4 write_combining in ok (set e pat5 write_protected))

-- `Flags::set_pat`
unfoldable pub set_pat : Flags → PatType → PageSize → Flags
unfolding from_type entry_index Flags.set
set_pat self pat_type page_size =
    let pat = entry_index (from_type pat_type) in
    let high = not (bit_and pat 4 == 0) in
    let sized =
      if page_size == size_4kb then set_pat_4kb self high else set_pat_big_pages self high in
    set_pcd (set_pwt sized (not (bit_and pat 2 == 0))) (not (bit_and pat 1 == 0))
