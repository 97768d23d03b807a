-- ===== src/Fat/Entries.antt =====
-- `fillDate`, `fillTime` and `fillDirEnt` of Dir.cpp, and SVMDateTime and SVMDirectoryEntry of
-- VirtualMachine.h. The long file name is a field that the program never sets: it keeps what
-- stood there.
pub mod Decoding
use proj.Base.{
  ℕ, ◌+◌, ◌-◌, ◌*◌, ◌/◌, ◌%◌, List, [], ◌∷◌, ◌++◌, ◌==◌, leb, if◌then◌else◌, get_or, take, drop,
}
use proj.Base.Words.{u32_mod}

pub record DateTime : Type 0 where
  pub d_year : ℕ
  pub d_month : ℕ
  pub d_day : ℕ
  pub d_hour : ℕ
  pub d_minute : ℕ
  pub d_second : ℕ
  pub d_hundredth : ℕ

pub record DirEntry : Type 0 where
  pub d_long_file_name : List ℕ
  pub d_short_file_name : List ℕ
  pub d_size : ℕ
  pub d_attributes : ℕ
  pub d_create : DateTime
  pub d_access : DateTime
  pub d_modify : DateTime

-- A two-byte field: `date[LO]` and `date[HI]`. Fields of type `unsigned char` are cut to 8 bits.
unfoldable pub fill_date : DateTime → (lo hi : ℕ) → DateTime
fill_date dt lo hi = record dt {
  d_year = 1980 + hi / 2 % 256;
  d_month = (hi % 2 * 2 + lo / 32 % 8) % 256;
  d_day = lo % 32 % 256;
}

unfoldable pub fill_time : DateTime → (lo hi dh : ℕ) → DateTime
fill_time dt lo hi dh =
    let second = 2 * (lo % 32) % 256 in
    let minute = (hi % 8 * 8 + lo / 32 % 8) % 256 in
    if leb 100 dh
    then record dt {
      d_hour = hi / 8 % 32;
      d_minute = minute;
      d_second = (second + 1) % 256;
      d_hundredth = dh - 100;
    }
    else record dt { d_hour = hi / 8 % 32; d_minute = minute; d_second = second; d_hundredth = dh }

-- The 13 bytes of the short name: name, separator, extension and the final NUL.
unfoldable pub short_name : List ℕ → List ℕ
short_name loc =
    take 8 loc
    ++ ((if get_or loc 8 0 == b' ' then b' ' else b'.') ∷ (take 3 (drop 8 loc) ++ (0 ∷ [])))

-- The bytes at `loc` shifted and summed, cut to 32 bits.
unfoldable pub dirent_size : List ℕ → ℕ
dirent_size loc =
    (get_or loc 28 0 + get_or loc 29 0 * 256 + get_or loc 30 0 * 65536 + get_or loc 31 0 * 16777216)
    % u32_mod

unfoldable pub fill_dir_ent : DirEntry → List ℕ → DirEntry
unfolding fill_date fill_time short_name dirent_size
fill_dir_ent dir loc = record {
  d_long_file_name = dir.d_long_file_name;
  d_short_file_name = short_name loc;
  d_size = dirent_size loc;
  d_attributes = get_or loc 11 0;
  d_create =
      fill_time (fill_date dir.d_create (get_or loc 16 0) (get_or loc 17 0)) (get_or loc 14 0)
        (get_or loc 15 0) (get_or loc 13 0);
  d_access = fill_time (fill_date dir.d_access (get_or loc 18 0) (get_or loc 19 0)) 0 0 0;
  d_modify =
      fill_time (fill_date dir.d_modify (get_or loc 24 0) (get_or loc 25 0)) (get_or loc 22 0)
        (get_or loc 23 0) 0;
}
