-- ===== src/Lib.antt =====
-- Verification library of ssdfs-tools, the user-space tools of the SSDFS file system.
--
-- The tools share a library (lib, include) and have one program each for creating, dumping,
-- checking, recovering and tuning a volume (sbin). This development models the core of the shared
-- library and parts of mkfs and of fsck.
--
-- * Prelude (no code of its own): native numbers and their Boolean tests, lists, words of 8 to 64
--   bits with their wrap-around written out, and `Outcome`, what a C function comes to: a value,
--   a negated error code, an abort by BUG_ON, or an access out of range.
-- * Bitmap (include/common_bitmap.h): items of a few bits in a byte. `items_per_byte`,
--   `aligned_start_item`, `aligned_end_item`, `first_state_in_byte`, `find_first_item_in_byte`
--   and `set_state_in_byte` are the macros and functions of the same names in capitals.
-- * BlkBmap (lib/blkbmap.c, include/blkbmap.h): the block bitmap. `set_area` is
--   ssdfs_blkbmap_set_area, its loops over bytes and items are `fill_bytes` and `fill_byte`, and
--   the jump out of both is a flag of `Progress`. The bitmap is the list of its bytes.
-- * SegBmap (lib/segbmap.c, include/segbmap.h): the segment bitmap. The size functions keep their
--   names in small letters; `set_first_clean_item_in_fragment` is
--   SET_FIRST_CLEAN_ITEM_IN_FRAGMENT, `search_range` its part from the alignment on and
--   `search_bytes` its loop. `fragment` is the list of the bytes behind the pointer of that name;
--   `Search` has what the call leaves in it, `*found_seg`, and the returned code. The accessors
--   of a state are those of sbin/dump.ssdfs/show_peb_dump.c.
-- * Granularity (include/ssdfs_tools.h, include/ssdfs_constants.h): the names of sizes and the
--   checks of page, segment and erase block sizes. A string is the list of its bytes.
-- * Csum (lib/ssdfs_common.c, include/ssdfs_abi.h): ssdfs_calculate_csum and is_csum_valid. The
--   check lies in the buffer it is a check of, at an offset, so that storing the sum changes the
--   bytes that are summed, as in the code. crc32 of zlib is a parameter.
-- * Peb (lib/ssdfs_common.c): the reads of the parts of a PEB and ssdfs_find_any_valid_peb, with
--   the read operation of the device as a parameter.
-- * DeviceIo (lib/ssdfs_common.c): the loops of ssdfs_pwrite and ssdfs_pread. The system calls
--   are parameters on a state of the world; what their manual promises is a hypothesis of the
--   theorems.
-- * Device (lib/zns_readwrite.c, lib/bdev_readwrite.c, lib/mtd_readwrite.c): zns_write, zns_erase
--   and zns_check_nand_geometry, bdev_erase, and the erasure and the checks of flash memory. What
--   an ioctl answers is a parameter.
-- * MkfsSegBmap (sbin/mkfs.ssdfs/segment_bitmap.c): segbmap_mkfs_allocation_policy and
--   segbmap_prepare_fragment. `Layout` has what the functions use of the volume layout;
--   `spread_fragments` is the part of the policy from the last value of segbmap_segs on.
-- * Heap (no code of its own): calloc, realloc and free as the C library documents them, on the
--   set of the live addresses; which allocations succeed is a parameter.
-- * LittleEndian (no code of its own): numbers as little-endian bytes, and memcpy and memmove on
--   a buffer, with a fault where an end lies behind it.
-- * FragmentsArray (sbin/mkfs.ssdfs: segment_bitmap.c, mapping_table.c, mapping_table_cache.c):
--   the arrays of buffers. The three pairs of a create and a destroy function are in Callers;
--   they share their loops, and differ in the number of buffers and in the type of the index, the
--   flag `wraps`, by which `previous` is `i--`. `rollback` is the loop behind the label
--   free_buffers. Freed is about that loop, Leaks about an index of type int, Unsigned about u32.
-- * MaptblCache (sbin/mkfs.ssdfs/mapping_table_cache.c): the fragments of the mapping table
--   cache, each the list of the bytes of a page. The functions keep their names; `item_index`,
--   `make_room`, `shift_items` and `put_entry` are the parts of add_leb2peb_pair, `find_from` and
--   `insert_from` the loops of find_fragment_index and cache_leb2peb_pair. Layout says how a page
--   holds entries.
-- * Maptbl (sbin/mkfs.ssdfs/mapping_table.c): the pages of the mapping table. The functions keep
--   their names; `LebTable` and `PebTable` are the headers that they fill, and `Layout` has what
--   they use of the volume layout. Lebs is about the pages of the LEBs, Stripes about those of
--   the PEBs.
-- * RawArea (lib/ssdfs_common.c, include/ssdfs_tools.h): ssdfs_create_raw_buffer,
--   ssdfs_create_raw_area and their destructions, and the content iterator,
--   SSDFS_CONTENT_ITERATOR_INCREMENT. Of a buffer the address and the size are modelled, not the
--   bytes.
-- * EraseThreads (sbin/mkfs.ssdfs/mkfs.c, mkfs.h): the threads of erase_device. `erase_turn` is a
--   round of the loop of erase_device_peb_range, and a schedule is the list of the turns of the
--   threads in any order, each with whether its erasure succeeds. Ranges is about what one thread
--   knows of its PEBs, Schedules about all threads.
-- * LebToPeb (sbin/mkfs.ssdfs/mapping_table.c, with META2SEG_TYPE of mkfs.h and SEG2PEB_TYPE of
--   include/ssdfs_constants.h): the mapping of the LEBs of new segments. The functions keep their
--   names; a table is a record of its header and its descriptors, and a pointer to it is the
--   numbers of the fragment, the portion and the page. Unused is about the search of a PEB, Place
--   and Stripe about where the descriptors are, Step, Call and Total about one mapping, Injective
--   about the invariant, Translate and Segment about those of a segment.
-- * LogLayout (sbin/mkfs.ssdfs/common.c): set_extent_start_offset, calculate_log_pages and
--   calculate_metadata_blks. `start_offset` is the offset that the first comes to, in its three
--   steps, and `align` the rounding to whole pages. Backups is about the last two extents.
-- * Segments (sbin/mkfs.ssdfs/common.c): reserve_segments, on the array of the segments of a new
--   volume.
-- * CreationPoints (sbin/fsck.ssdfs/detect_file_system.c): the array of the creation points, in
--   which fsck collects the metadata PEBs that its threads have found. The functions keep their
--   names without the prefix ssdfs_fsck_; `place_of` and `insert_at` are the loop and the
--   memmove of add_creation_point. The answers of calloc and realloc are a parameter.
--
-- BlkBmap and SegBmap use Bitmap, Peb uses Csum, Device uses DeviceIo, MkfsSegBmap uses SegBmap,
-- FragmentsArray uses Heap and MaptblCache, MaptblCache uses LittleEndian, RawArea uses Heap,
-- LebToPeb uses Maptbl and MaptblCache; all use Prelude. Integers are natural numbers below the
-- bound of their width. Loops over an index run on the number of rounds that is left, which the
-- code fixes before the loop, so that no bound is chosen. The transfer loops, the search of a
-- PEB, the erasure of a block device and the loop that frees the buffers of a failed creation run
-- on fuel: `runs`, `none`, `unfinished` or `endless` says that it was used up, and the theorems
-- give the fuel that is enough: more than the bytes to move and the interruptions to come, more
-- than the bytes of the volume, for the erasure of a range as many rounds as it has bytes, and
-- for the buffers a round for each and one more, which free_buffers gives.
--
-- Not modelled: the debug and error messages, the other code of the programs under sbin, the
-- compression wrappers (zlib and lzo), zns_check_peb, the environments of several areas in
-- lib/ssdfs_common.c. Of mapping_table.c the allocation policy behind the correction of the
-- stripes, the loops over the portions and the validity checks are left; of erase_device the
-- choice of the number of threads and the failure to create one.
pub mod Prelude
pub mod Bitmap
pub mod BlkBmap
pub mod SegBmap
pub mod Granularity
pub mod Csum
pub mod Peb
pub mod DeviceIo
pub mod Device
pub mod MkfsSegBmap
pub mod Heap
pub mod LittleEndian
pub mod FragmentsArray
pub mod MaptblCache
pub mod Maptbl
pub mod RawArea
pub mod EraseThreads
pub mod LebToPeb
pub mod LogLayout
pub mod Segments
pub mod CreationPoints
