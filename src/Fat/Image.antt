-- ===== src/Fat/Image.antt =====
-- The state of `FATData` (FATData.h), its constructor, `addRootEntry` and the accessors.
--
-- `read_at o n` is what `seekg(o)` and `read(buffer, n)` of the standard library deliver from the
-- image file. `blank` is what stands in a directory entry before it is filled.
pub mod Listing
use proj.Base.{
  ℕ, zero, suc, ◌+◌, ◌*◌, ◌/◌, ◌%◌, Bool, not, ◌&&◌, List, [], ◌∷◌, ◌++◌, Option, none, some, ◌==◌,
  leb, ltb, if◌then◌else◌, get_or, get_elem?, length, drop,
}
use proj.Base.Words.{add32, sub32, mul32}
use proj.Base.Int.{ℤ, pos, ◌==ℤ◌, ◌-ℤ◌}
use proj.Fat.Bytes.{bytes_to_unsigned}
use proj.Fat.Entries.{DirEntry, fill_dir_ent}

pub record FatData : Type 0 where
  pub bytes_per_sector : ℕ
  pub sectors_per_cluster : ℕ
  pub reserved_sector_count : ℕ
  pub root_entry_count : ℕ
  pub total_sectors16 : ℕ
  pub fat_sz16 : ℕ
  pub total_sectors32 : ℕ
  pub data_start : ℕ
  pub num_clusters : ℕ
  pub bpb : List ℕ
  pub fat : List ℕ
  pub root : List ℕ
  pub root_ents : List DirEntry
  pub file_starts : List ℕ

-- A `char` that is written as a number up to 255, on the target, where `char` is signed.
abbrev pub char_value : ℕ → ℤ
char_value c = if ltb c 128 then pos c else pos c -ℤ pos 256

-- The test of `addRootEntry`: a byte of the array, which is an `uint8_t`, against two `char`s, and
-- the low four bits of the attributes.
unfoldable pub is_listed : List ℕ → Bool
is_listed ent =
    not (pos (get_or ent 0 0) ==ℤ char_value 0xe5)
    && not (pos (get_or ent 0 0) ==ℤ char_value 0)
    && not (get_or ent 11 0 % 16 == 15)

unfoldable pub add_root_entry : DirEntry → FatData → (offset : ℕ) → FatData
unfolding is_listed
add_root_entry blank f offset =
    let ent = drop offset f.root in
    if is_listed ent
    then record f {
      root_ents = f.root_ents ++ (fill_dir_ent blank ent ∷ []);
      file_starts = f.file_starts ++ (bytes_to_unsigned (drop 26 ent) 2 ∷ []);
    }
    else f

-- The constructor's loop over the root directory, `rounds` entries from `offset` on.
unfoldable pub add_root_entries : DirEntry → (rounds offset : ℕ) → FatData → FatData
add_root_entries blank zero offset f = f
add_root_entries blank (suc n) offset f =
    add_root_entries blank n (offset + 32) (add_root_entry blank f offset)

-- The array of 16-bit entries that a run of bytes is on a little-endian machine.
unfoldable pub words16 : List ℕ → List ℕ
words16 [] = []
words16 (lo ∷ []) = []
words16 (lo ∷ hi ∷ bs) = (lo + 256 * hi) ∷ words16 bs

-- `getClusterSize`, `getDataStartByte`, `getFileStart` and `getRootEnt`.
unfoldable pub get_cluster_size : FatData → ℕ
get_cluster_size f = mul32 f.bytes_per_sector f.sectors_per_cluster

unfoldable pub get_data_start_byte : FatData → ℕ
get_data_start_byte f = mul32 f.data_start f.bytes_per_sector

unfoldable pub get_file_start : FatData → ℕ → ℕ
get_file_start f p = if leb (length f.file_starts) p then 0 else get_or f.file_starts p 0

unfoldable pub get_root_ent : FatData → ℕ → Option DirEntry
get_root_ent f p = if leb (length f.root_ents) p then none else get_elem? f.root_ents p

-- The fields that come from the BIOS parameter block, and what follows from them.
unfoldable pub read_bpb : List ℕ → FatData
read_bpb bpb =
    let bps = bytes_to_unsigned (drop 11 bpb) 2 in
    let spc = bytes_to_unsigned (drop 13 bpb) 1 in
    let reserved = bytes_to_unsigned (drop 14 bpb) 2 in
    let root_count = bytes_to_unsigned (drop 17 bpb) 2 in
    let fat_sz = bytes_to_unsigned (drop 22 bpb) 2 in
    let total32 = bytes_to_unsigned (drop 32 bpb) 4 in
    let root_sectors = mul32 root_count 32 / 512 in
    let first_root = add32 reserved (mul32 2 fat_sz) in
    let start = add32 first_root root_sectors in
    record {
      bytes_per_sector = bps;
      sectors_per_cluster = spc;
      reserved_sector_count = reserved;
      root_entry_count = root_count;
      total_sectors16 = bytes_to_unsigned (drop 19 bpb) 2;
      fat_sz16 = fat_sz;
      total_sectors32 = total32;
      data_start = start;
      num_clusters = sub32 total32 start / spc;
      bpb = bpb;
      fat = [];
      root = [];
      root_ents = [];
      file_starts = [];
    }

-- `FATSz` entries are allocated, and as many bytes are read.
unfoldable pub load_tables : (ℕ → ℕ → List ℕ) → FatData → FatData
load_tables read_at f =
    let fat_size = mul32 (mul32 2 f.fat_sz16) f.bytes_per_sector / 2 in
    let root_size = mul32 f.root_entry_count 32 in
    let fat_pos = mul32 f.bytes_per_sector f.reserved_sector_count in
    let root_pos = mul32 f.bytes_per_sector (add32 f.reserved_sector_count (mul32 2 f.fat_sz16)) in
    record f { fat = words16 (read_at fat_pos fat_size); root = read_at root_pos root_size }

-- `FATData::FATData`. No sectors per cluster is a division by zero: `none`.
unfoldable pub new_fat_data : (ℕ → ℕ → List ℕ) → DirEntry → Option FatData
unfolding read_bpb load_tables
new_fat_data read_at blank =
    let f = load_tables read_at (read_bpb (read_at 0 62)) in
    if f.sectors_per_cluster == 0
    then none
    else some (add_root_entries blank f.root_entry_count 0 f)
