-- ===== src/Granularity.antt =====
-- Sizes of pages, erase blocks and segments: their names and checks (include/ssdfs_tools.h and the
-- constants of include/ssdfs_constants.h).
pub mod Names
pub mod Powers
mod Tests
use Prim.Native.Char.{code}
use Prim.Native.String.{String}
use Prim.Native.String
use ssdfs_tools.Prelude.{
  ℕ, ◌+◌, ◌*◌, ◌^◌, Bool, true, false, leb, ◌==◌, ◌&&◌, if◌then◌else◌, List, [], ◌∷◌, u64_max,
  Outcome, ok, err, eopnotsupp,
}

-- The bytes of a string without the zero at its end.
abbrev pub codes : String → List ℕ
codes String.[] = []
codes (String.◌∷◌ c s) = code c ∷ codes s

abbrev pub size_256b : ℕ
size_256b = 256

abbrev pub size_512b : ℕ
size_512b = 512

abbrev pub size_1kb : ℕ
size_1kb = 1024

abbrev pub size_2kb : ℕ
size_2kb = 2048

abbrev pub size_4kb : ℕ
size_4kb = 4096

abbrev pub size_8kb : ℕ
size_8kb = 8192

abbrev pub size_16kb : ℕ
size_16kb = 16384

abbrev pub size_32kb : ℕ
size_32kb = 32768

abbrev pub size_64kb : ℕ
size_64kb = 65536

abbrev pub size_128kb : ℕ
size_128kb = 131072

abbrev pub size_256kb : ℕ
size_256kb = 262144

abbrev pub size_512kb : ℕ
size_512kb = 524288

abbrev pub size_1mb : ℕ
size_1mb = 1048576

abbrev pub size_2mb : ℕ
size_2mb = 2097152

abbrev pub size_4mb : ℕ
size_4mb = 4194304

abbrev pub size_8mb : ℕ
size_8mb = 8388608

abbrev pub size_16mb : ℕ
size_16mb = 16777216

abbrev pub size_32mb : ℕ
size_32mb = 33554432

abbrev pub size_64mb : ℕ
size_64mb = 67108864

abbrev pub size_128mb : ℕ
size_128mb = 134217728

abbrev pub size_256mb : ℕ
size_256mb = 268435456

abbrev pub size_512mb : ℕ
size_512mb = 536870912

abbrev pub size_1gb : ℕ
size_1gb = 1073741824

abbrev pub size_2gb : ℕ
size_2gb = 2147483648

abbrev pub size_4gb : ℕ
size_4gb = 4294967296

abbrev pub size_8gb : ℕ
size_8gb = 8589934592

abbrev pub size_16gb : ℕ
size_16gb = 17179869184

abbrev pub size_32gb : ℕ
size_32gb = 34359738368

abbrev pub size_64gb : ℕ
size_64gb = 68719476736

-- tolower
abbrev pub lower : ℕ → ℕ
lower c = if leb b'A' c && leb c b'Z' then c + 32 else c

-- check_string is 0: strncasecmp of the length of the second string finds no difference.
pub check_string : List ℕ → List ℕ → Bool
check_string str [] = true
check_string [] (c ∷ name) = false
check_string (d ∷ str) (c ∷ name) = if lower d == lower c then check_string str name else false

-- The tests of detect_granularity, in their order, each with what it returns.
abbrev pub granularities : List (List ℕ × ℕ)
granularities =
    (codes "265B", size_256b)
    ∷ (codes "512B", size_512b)
    ∷ (codes "1KB", size_1kb)
    ∷ (codes "2KB", size_2kb)
    ∷ (codes "4KB", size_4kb)
    ∷ (codes "8KB", size_8kb)
    ∷ (codes "16KB", size_16kb)
    ∷ (codes "32KB", size_32kb)
    ∷ (codes "64KB", size_64kb)
    ∷ (codes "128KB", size_128kb)
    ∷ (codes "256KB", size_256kb)
    ∷ (codes "512KB", size_512kb)
    ∷ (codes "1MB", size_1mb)
    ∷ (codes "2MB", size_2mb)
    ∷ (codes "4MB", size_4mb)
    ∷ (codes "8MB", size_8mb)
    ∷ (codes "16MB", size_16mb)
    ∷ (codes "32MB", size_32mb)
    ∷ (codes "64MB", size_64mb)
    ∷ (codes "128MB", size_128mb)
    ∷ (codes "256MB", size_256mb)
    ∷ (codes "512MB", size_512mb)
    ∷ (codes "1GB", size_1gb)
    ∷ (codes "2GB", size_2gb)
    ∷ (codes "8GB", size_8gb)
    ∷ (codes "16GB", size_16gb)
    ∷ (codes "32GB", size_32gb)
    ∷ (codes "64GB", size_64gb)
    ∷ []

pub first_match : List (List ℕ × ℕ) → List ℕ → ℕ
first_match [] str = u64_max
first_match ((name, size) ∷ rest) str =
    let next = first_match rest str in if check_string str name then size else next

pub detect_granularity : List ℕ → ℕ
detect_granularity = first_match granularities

-- `switch (size)` over cases that do nothing.
pub one_of : List ℕ → ℕ → Bool
one_of [] size = false
one_of (s ∷ sizes) size = if size == s then true else one_of sizes size

abbrev pub page_sizes : List ℕ
page_sizes = size_4kb ∷ size_8kb ∷ size_16kb ∷ size_32kb ∷ []

abbrev pub segment_sizes : List ℕ
segment_sizes =
    size_128kb ∷ size_256kb ∷ size_512kb ∷ size_1mb ∷ size_2mb ∷ size_4mb ∷ size_8mb ∷ size_16mb
    ∷ size_32mb ∷ size_64mb ∷ size_128mb ∷ size_256mb ∷ size_512mb ∷ size_1gb ∷ size_2gb ∷ size_4gb
    ∷ size_8gb ∷ size_16gb ∷ size_32gb ∷ size_64gb ∷ []

abbrev pub erase_sizes : List ℕ
erase_sizes =
    size_128kb ∷ size_256kb ∷ size_512kb ∷ size_1mb ∷ size_2mb ∷ size_4mb ∷ size_8mb ∷ size_16mb
    ∷ size_32mb ∷ size_64mb ∷ size_128mb ∷ size_256mb ∷ size_512mb ∷ size_1gb ∷ size_2gb ∷ []

pub check_pagesize : ℕ → Outcome (Unit {0})
check_pagesize size = if one_of page_sizes size then ok tt else err eopnotsupp

pub check_segsize : ℕ → Outcome (Unit {0})
check_segsize size = if one_of segment_sizes size then ok tt else err eopnotsupp

pub check_erasesize : ℕ → Outcome (Unit {0})
check_erasesize size = if one_of erase_sizes size then ok tt else err eopnotsupp
