-- ===== src/Granularity/Tests.antt =====
-- Concrete runs and instances of the theorems on sizes.
use ssdfs_tools.Prelude.{◌≡◌, refl, ◌↔◌, ok, arith}
use ssdfs_tools.Granularity.{
  codes, check_string, first_match, detect_granularity, granularities, one_of, check_segsize,
  size_16kb, size_4gb,
}
use ssdfs_tools.Granularity.Names.{Names, detect_granularity_iff}

detect_16kb : detect_granularity (codes "16kb") ≡ size_16kb
unfolding detect_granularity first_match check_string
detect_16kb = refl

segsize_4gb : check_segsize size_4gb ≡ ok tt
unfolding check_segsize one_of
segsize_4gb = refl

detect_granularity_iff_example :
    (detect_granularity (codes "16kb") ≡ size_16kb) ↔ Names granularities (codes "16kb") size_16kb
detect_granularity_iff_example = detect_granularity_iff (codes "16kb") size_16kb (omega arith)
