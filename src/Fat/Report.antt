-- ===== src/Fat/Report.antt =====
-- What `fatls`, `fatout` and `fatvol` (FATData.cpp) print of an image, and the accessors and the
-- stubs that stand beside them.
use proj.Base.{
  Bool, List, Option, drop, get_elem?, get_or, if◌then◌else◌, leb, length, none, not, some, take,
  true, ℕ, ◌%◌, ◌&&◌, ◌/◌, ◌==◌,
}
use proj.Base.Strings.{c_string}
use proj.Base.Words.{add32, mul32, sub32}
use proj.Fat.Bytes.{bytes_to_unsigned}
use proj.Fat.Image.{FatData}
pub mod Geometry
pub mod Fields

-- The line of `fatls`. The size is a fixed text.
pub record ListingLine : Type 0 where
  pub year : ℕ
  pub month : ℕ
  pub day : ℕ
  pub hour : ℕ
  pub minute : ℕ
  pub is_pm : Bool
  pub is_directory : Bool
  pub short_file_name : List ℕ

-- It shows the second entry; `at` throws where there is none.
unfoldable pub fatls : FatData → Option ListingLine
fatls f = elim (get_elem? f.root_ents 1) [
  | none ↦ none
  | some e ↦ some (record {
    year = e.d_modify.d_year;
    month = e.d_modify.d_month;
    day = e.d_modify.d_day;
    hour = e.d_modify.d_hour % 12;
    minute = e.d_modify.d_minute;
    is_pm = not (e.d_modify.d_hour / 12 == 0);
    is_directory = e.d_attributes / 16 % 2 == 1;
    short_file_name = c_string e.d_short_file_name;
  })
]

-- The three lists of numbers that `fatout` prints; there is none where it reads what was not loaded.
unfoldable pub fatout : FatData → Option (List ℕ × List ℕ × List ℕ)
fatout f =
    let fat_size = mul32 (mul32 2 f.fat_sz16) 512 in
    let root_size = mul32 f.root_entry_count 32 in
    if leb 62 (length f.bpb) && leb fat_size (length f.fat) && leb root_size (length f.root)
    then some (take 62 f.bpb, take fat_size f.fat, take root_size f.root)
    else none

-- What `fatvol` prints.
pub record Volume : Type 0 where
  pub oem_name : List ℕ
  pub bytes_per_sector : ℕ
  pub sectors_per_cluster : ℕ
  pub reserved_sectors : ℕ
  pub fat_count : ℕ
  pub root_entry : ℕ
  pub sector_count16 : ℕ
  pub media : ℕ
  pub fat_size16 : ℕ
  pub sectors_per_track : ℕ
  pub head_count : ℕ
  pub hidden_sector_count : ℕ
  pub sector_count32 : ℕ
  pub drive_number : ℕ
  pub boot_signature : ℕ
  pub volume_id : ℕ
  pub volume_label : List ℕ
  pub file_system_type : List ℕ
  pub root_dir_sectors : ℕ
  pub first_root_sector : ℕ
  pub first_data_sector : ℕ
  pub cluster_count : ℕ

unfoldable pub volume_of : FatData → Volume
volume_of f =
    let root_sectors = mul32 f.root_entry_count 32 / 512 in
    let first_root = add32 f.reserved_sector_count (mul32 2 f.fat_sz16) in
    let first_data = add32 first_root root_sectors in
    record {
      oem_name = c_string (drop 3 f.bpb);
      bytes_per_sector = f.bytes_per_sector;
      sectors_per_cluster = f.sectors_per_cluster;
      reserved_sectors = f.reserved_sector_count;
      fat_count = 2;
      root_entry = f.root_entry_count;
      sector_count16 = f.total_sectors16;
      media = get_or f.bpb 21 0;
      fat_size16 = f.fat_sz16;
      sectors_per_track = bytes_to_unsigned (drop 24 f.bpb) 2;
      head_count = bytes_to_unsigned (drop 26 f.bpb) 2;
      hidden_sector_count = bytes_to_unsigned (drop 28 f.bpb) 4;
      sector_count32 = f.total_sectors32;
      drive_number = bytes_to_unsigned (drop 36 f.bpb) 1;
      boot_signature = bytes_to_unsigned (drop 38 f.bpb) 1;
      volume_id = bytes_to_unsigned (drop 39 f.bpb) 4;
      volume_label = take 11 (drop 43 f.bpb);
      file_system_type = c_string (drop 54 f.bpb);
      root_dir_sectors = root_sectors;
      first_root_sector = first_root;
      first_data_sector = first_data;
      cluster_count = sub32 f.total_sectors32 first_data / f.sectors_per_cluster;
    }

-- No sectors per cluster is a division by zero.
unfoldable pub fatvol : FatData → Option Volume
unfolding volume_of
fatvol f = if f.sectors_per_cluster == 0 then none else some (volume_of f)

abbrev pub get_bytes_per_sector : FatData → ℕ
get_bytes_per_sector f = f.bytes_per_sector

abbrev pub get_root : FatData → List ℕ
get_root f = f.root

-- `writeToFile` writes nothing, and says that it has.
abbrev pub write_to_file : FatData → (f_name new_contents : List ℕ) → Bool × FatData
write_to_file f f_name new_contents = (true, f)
