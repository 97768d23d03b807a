-- ===== src/Fat/Report/Fields.antt =====
-- What `fatvol` (FATData.cpp) prints, against the boot sector as the FAT specification lays it out.
use proj.Base.{List, drop, get_or, take, ℕ, ◌*◌, ◌+◌, ◌/◌, ◌≡◌}
use proj.Base.Bytes.{IsBytes}
use proj.Base.Strings.{c_string}
use proj.Fat.Entries.{DirEntry}
use proj.Fat.Image.{FatData}
use proj.Fat.Report.{Volume}

-- The little-endian numbers of one, two and four bytes at a place.
abbrev pub byte : List ℕ → ℕ → ℕ
byte bs o = get_or bs o 0

abbrev pub word : List ℕ → ℕ → ℕ
word bs o = byte bs o + 256 * byte bs (o + 1)

abbrev pub double_word : List ℕ → ℕ → ℕ
double_word bs o = word bs o + 65536 * word bs (o + 2)

-- What stands in the fields of a boot sector, and what follows from it.
pub record Shows (boot : List ℕ) (vol : Volume) : Type 0 where
  pub oem_name : vol.oem_name ≡ c_string (drop 3 boot)
  pub bytes_per_sector : vol.bytes_per_sector ≡ word boot 11
  pub sectors_per_cluster : vol.sectors_per_cluster ≡ byte boot 13
  pub reserved_sectors : vol.reserved_sectors ≡ word boot 14
  pub root_entry : vol.root_entry ≡ word boot 17
  pub sector_count16 : vol.sector_count16 ≡ word boot 19
  pub media : vol.media ≡ byte boot 21
  pub fat_size16 : vol.fat_size16 ≡ word boot 22
  pub sectors_per_track : vol.sectors_per_track ≡ word boot 24
  pub head_count : vol.head_count ≡ word boot 26
  pub hidden_sector_count : vol.hidden_sector_count ≡ double_word boot 28
  pub sector_count32 : vol.sector_count32 ≡ double_word boot 32
  pub drive_number : vol.drive_number ≡ byte boot 36
  pub boot_signature : vol.boot_signature ≡ byte boot 38
  pub volume_id : vol.volume_id ≡ double_word boot 39
  pub fat_count : vol.fat_count ≡ 2
  pub volume_label : vol.volume_label ≡ take 11 (drop 43 boot)
  pub file_system_type : vol.file_system_type ≡ c_string (drop 54 boot)
  pub root_dir_sectors : vol.root_dir_sectors ≡ word boot 17 * 32 / 512
  pub first_root_sector : vol.first_root_sector ≡ word boot 14 + 2 * word boot 22
  pub first_data_sector :
      vol.first_data_sector ≡ word boot 14 + 2 * word boot 22 + word boot 17 * 32 / 512

module _ (read_at : ℕ → ℕ → List ℕ) (blank : DirEntry) (f : FatData)
    (bytes : IsBytes (read_at 0 62)) where
  abbrev boot : List ℕ
  boot = read_at 0 62
