-- ===== src/Examples/Fat.antt =====
-- An image of sixteen root entries and one file of 600 bytes in two clusters.
use proj.Fat.Files.Placement.{IsNarrow, read_from_file-stored, stored}
use proj.Base.{
  List, arith, drop, get_or, if◌then◌else◌, length, refl, some, suc, take, zero, ℕ, ◌%◌, ◌*◌, ◌++◌,
  ◌<◌, ◌==◌, ◌∷◌, ◌≡◌, ◌≢◌, ◌≤◌,
}
use proj.Fat.Bytes.{bytes_loop, bytes_to_unsigned}
use proj.Fat.Entries.{
  DateTime, DirEntry, dirent_size, fill_date, fill_dir_ent, fill_time, short_name,
}
use proj.Fat.Files.{contents, endless, find_entry, read_from_file}
use proj.Base.Strings.{c_string, string_eq}
use proj.Fat.Files.Bounds.{IsBounded, read_from_file-IsBounded, read_from_file-overrun}
use proj.Fat.Files.Chains.{Chain}
use proj.Fat.Files.Reading.{read_from_file-ne-endless, wanted}
use proj.Fat.Image.{
  FatData, add_root_entries, add_root_entry, get_cluster_size, is_listed, load_tables, new_fat_data,
  read_bpb, words16,
}
use proj.Base.{[]}

abbrev starts_with : List ℕ → ℕ → ℕ → List ℕ
starts_with bs zero i = []
starts_with bs (suc n) i = get_or bs i 0 ∷ starts_with bs n (suc i)

-- The first bytes of the four places that the program reads: 512 bytes per sector, one sector per
-- cluster, one reserved sector, 16 root entries, tables of one sector; the table leads from cluster
-- 2 to cluster 3 and ends there; the entry is of the file A.TXT.
abbrev at_offset : ℕ → List ℕ
at_offset o =
    if o == 0
    then 0 ∷ 0 ∷ 0 ∷ 0 ∷ 0 ∷ 0 ∷ 0 ∷ 0 ∷ 0 ∷ 0 ∷ 0 ∷ 0 ∷ 2 ∷ 1 ∷ 1 ∷ 0 ∷ 0 ∷ 16 ∷ 0 ∷ 0 ∷ 0 ∷ 0 ∷ 1
      ∷ []
    else if o == 512
    then 0 ∷ 0 ∷ 0 ∷ 0 ∷ 3 ∷ 0 ∷ 255 ∷ 255 ∷ []
    else if o == 1536
    then 65 ∷ 32 ∷ 32 ∷ 32 ∷ 32 ∷ 32 ∷ 32 ∷ 32 ∷ 84 ∷ 88 ∷ 84 ∷ 0 ∷ 0 ∷ 0 ∷ 0 ∷ 0 ∷ 0 ∷ 0 ∷ 0 ∷ 0
      ∷ 0 ∷ 0 ∷ 0 ∷ 0 ∷ 0 ∷ 0 ∷ 2 ∷ 0 ∷ 88 ∷ 2 ∷ 0 ∷ 0 ∷ []
    else 72 ∷ 105 ∷ []

abbrev pub read_at : ℕ → ℕ → List ℕ
read_at o n = starts_with (at_offset o) n 0

length-starts_with : (bs : List ℕ) (n i : ℕ) → length (starts_with bs n i) ≡ n
length-starts_with bs zero i = refl
length-starts_with bs (suc n) i = omega (arith, length-starts_with bs n (suc i))

whole : (o n : ℕ) → length (read_at o n) ≡ n
whole o n = length-starts_with (at_offset o) n 0

abbrev pub no_date : DateTime
no_date = record {
  d_year = 0;
  d_month = 0;
  d_day = 0;
  d_hour = 0;
  d_minute = 0;
  d_second = 0;
  d_hundredth = 0;
}

abbrev pub blank : DirEntry
blank = record {
  d_long_file_name = 120 ∷ 0 ∷ 7 ∷ [];
  d_short_file_name = [];
  d_size = 0;
  d_attributes = 0;
  d_create = no_date;
  d_access = no_date;
  d_modify = no_date;
}

abbrev pub a_txt : List ℕ
a_txt = 65 ∷ 32 ∷ 32 ∷ 32 ∷ 32 ∷ 32 ∷ 32 ∷ 32 ∷ 46 ∷ 84 ∷ 88 ∷ 84 ∷ []

abbrev a_entry : DirEntry
a_entry = record blank { d_short_file_name = a_txt ++ (0 ∷ []); d_size = 600 }

abbrev pub image : FatData
image = record {
  bytes_per_sector = 512;
  sectors_per_cluster = 1;
  reserved_sector_count = 1;
  root_entry_count = 16;
  total_sectors16 = 0;
  fat_sz16 = 1;
  total_sectors32 = 0;
  data_start = 4;
  num_clusters = 0;
  bpb = [];
  fat = 0 ∷ 0 ∷ 3 ∷ 65535 ∷ [];
  root = [];
  root_ents = a_entry ∷ [];
  file_starts = 2 ∷ [];
}

-- The image as the constructor loads it.
loads : (f : FatData) × (new_fat_data read_at blank ≡ some f)
unfolding new_fat_data load_tables read_bpb bytes_to_unsigned bytes_loop add_root_entries
    add_root_entry is_listed words16 fill_dir_ent fill_date fill_time short_name dirent_size
loads = (_, refl)

found : find_entry a_txt 0 image.root_ents ≡ some (0, a_entry)
unfolding find_entry c_string string_eq
found = refl

size_pos : 0 < get_cluster_size image
unfolding get_cluster_size
size_pos = omega arith

chain : Chain image.fat 2 (2 ∷ 3 ∷ [])
chain =
    Chain.link 2 3 (3 ∷ []) refl (omega arith) (omega arith) (Chain.last 3 65535 refl (omega arith))

read_from_file-ne-endless_example : read_from_file read_at image a_txt 700 ≢ endless
read_from_file-ne-endless_example = read_from_file-ne-endless read_at image a_txt 700 size_pos

read_from_file-IsBounded_example : IsBounded 700 (read_from_file read_at image a_txt 700)
read_from_file-IsBounded_example = read_from_file-IsBounded read_at image a_txt 700

two_clusters : 700 ≤ get_cluster_size image * 2
unfolding get_cluster_size
two_clusters = omega arith

read_from_file-overrun_example :
    (s : List ℕ) × (read_from_file read_at image a_txt 700 ≡ contents s)
    × (length s ≡ 700)
    × (600 < length s)
read_from_file-overrun_example =
    read_from_file-overrun read_at image whole a_txt 700 0 2 a_entry (2 ∷ 3 ∷ []) size_pos found
      refl chain (omega arith) (omega arith) (omega arith) two_clusters

abbrev deleted : List ℕ
deleted = 229 ∷ 66 ∷ []

abbrev with_deleted : FatData
with_deleted = record image { root = deleted }

not_long : get_or (drop 0 with_deleted.root) 11 0 % 16 ≢ 15
not_long e = absurd (omega (arith, e))

narrow : IsNarrow image (get_cluster_size image) (2 ∷ 3 ∷ [])
unfolding get_cluster_size
narrow = (omega arith, (omega arith, tt))

read_from_file-stored_example :
    read_from_file read_at image a_txt 700
    ≡ contents (
        take
          (wanted image a_entry 700)
          (stored read_at image (get_cluster_size image) 2 (2 ∷ 3 ∷ [])))
read_from_file-stored_example =
    read_from_file-stored read_at image whole a_txt 700 0 2 a_entry (2 ∷ 3 ∷ []) size_pos found refl
      chain narrow

exact : (o n : ℕ) → length (read_at o n) ≤ n
exact o n = omega (arith, whole o n)

loads_sector : loads.0.bytes_per_sector ≡ 512
unfolding loads new_fat_data load_tables read_bpb bytes_to_unsigned bytes_loop add_root_entries
    add_root_entry is_listed words16 fill_dir_ent fill_date fill_time short_name dirent_size
loads_sector = refl

loads_table : loads.0.fat_sz16 ≡ 1
unfolding loads new_fat_data load_tables read_bpb bytes_to_unsigned bytes_loop add_root_entries
    add_root_entry is_listed words16 fill_dir_ent fill_date fill_time short_name dirent_size
loads_table = refl
