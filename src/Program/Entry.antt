-- ===== src/Program/Entry.antt =====
-- A line of a directory listing: `DumpDirectoryEntry` (apps/fat.c), which apps/shell.c has in line.
use proj.Base.{length, ltb}
use proj.Base.{
  Bool, List, arith, if◌then◌else◌, leb, not, true, ℕ, ◌%◌, ◌*◌, ◌+◌, ◌/◌, ◌<◌, ◌==◌, ◌≡◌, ◌≤◌,
}
use proj.Base.Strings.{c_string}
use proj.Fat.Entries.{DirEntry}
use proj.Machine.Flight.{one}

-- The column of the size, by the format that prints it.
pub data SizeColumn : Type 0 where
  millions : (mil kil one : ℕ) → SizeColumn
  thousands : (kil one : ℕ) → SizeColumn
  units : (one : ℕ) → SizeColumn
  blanks : SizeColumn

-- The arguments of the four calls of `VMPrint`.
pub record Row : Type 0 where
  pub year : ℕ
  pub month : ℕ
  pub day : ℕ
  pub hour : ℕ
  pub minute : ℕ
  pub is_pm : Bool
  pub is_directory : Bool
  pub size_column : SizeColumn
  pub short_file_name : List ℕ
  pub long_file_name : List ℕ

-- `DAttributes & VM_FILE_SYSTEM_ATTR_DIRECTORY`.
abbrev pub names_directory : DirEntry → Bool
names_directory e = e.d_attributes / 16 % 2 == 1

unfoldable pub size_column_of : (size : ℕ) (is_directory : Bool) → SizeColumn
size_column_of size is_directory =
    let mil = size / 1000000 in
    let kil = size / 1000 % 1000 in
    let one = size % 1000 in
    if not (mil == 0)
    then millions mil kil one
    else if not (kil == 0)
    then thousands kil one
    else if not is_directory
    then units one
    else blanks

-- `%s` reads the long name up to a NUL. There is one in the array, or what is printed is undefined.
unfoldable pub is_printable : DirEntry → Bool
is_printable e = ltb (length (c_string e.d_long_file_name)) (length e.d_long_file_name)

unfoldable pub dump_directory_entry : DirEntry → Row
unfolding size_column_of
dump_directory_entry e =
    let hour = e.d_modify.d_hour in
    record {
      year = e.d_modify.d_year;
      month = e.d_modify.d_month;
      day = e.d_modify.d_day;
      hour = if not (hour % 12 == 0) then hour % 12 else 12;
      minute = e.d_modify.d_minute;
      is_pm = leb 12 hour;
      is_directory = names_directory e;
      size_column = size_column_of e.d_size (names_directory e);
      short_file_name = c_string e.d_short_file_name;
      long_file_name = c_string e.d_long_file_name;
    }

-- What a reader makes of the columns.
abbrev pub read_size : SizeColumn → ℕ
read_size (millions mil kil one) = mil * 1000000 + kil * 1000 + one
read_size (thousands kil one) = kil * 1000 + one
read_size (units one) = one
read_size blanks = 0

-- The groups of three digits, but for the first, have three digits.
abbrev pub HasGroups : SizeColumn → Type 0
HasGroups (millions mil kil one) = (0 < mil) × (kil < 1000) × (one < 1000)
HasGroups (thousands kil one) = (0 < kil) × (kil < 1000) × (one < 1000)
HasGroups (units one) = one < 1000
HasGroups blanks = Unit {0}

abbrev pub read_hour : Row → ℕ
read_hour r = r.hour % 12 + (if r.is_pm then 12 else 0)

size_column_of_lem :
    (size : ℕ) (is_directory : Bool)
    → (is_directory ≡ true → size ≡ 0)
    → (read_size (size_column_of size is_directory) ≡ size)
      × HasGroups (size_column_of size is_directory)
unfolding size_column_of
size_column_of_lem size is_directory h = ground (arith, h)

hour_lem :
    (e : DirEntry)
    → e.d_modify.d_hour < 24
    → let r = dump_directory_entry e in
      (1 ≤ r.hour) × (r.hour ≤ 12) × (read_hour r ≡ e.d_modify.d_hour)
unfolding dump_directory_entry
hour_lem e h = ground arith

-- The line that DumpDirectoryEntry prints for an entry with an hour below 24, and with size 0 if
-- it is a directory, shows an hour from 1 to 12 that gives the entry's hour back with AM or PM,
-- and a size that gives the entry's size back, in groups of three digits.
pub dump_directory_entry_lem :
    (e : DirEntry)
    → e.d_modify.d_hour < 24
    → (names_directory e ≡ true → e.d_size ≡ 0)
    → let r = dump_directory_entry e in
      (1 ≤ r.hour)
      × (r.hour ≤ 12)
      × (read_hour r ≡ e.d_modify.d_hour)
      × (read_size r.size_column ≡ e.d_size)
      × HasGroups r.size_column
unfolding dump_directory_entry
dump_directory_entry_lem e h directory =
    let (low, high, same) = hour_lem e h in
    let (size_back, groups) = size_column_of_lem e.d_size (names_directory e) directory in
    (low, high, same, size_back, groups)
