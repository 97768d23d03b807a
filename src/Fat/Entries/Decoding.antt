-- ===== src/Fat/Entries/Decoding.antt =====
-- What Dir.cpp decodes from the packed dates and times of a FAT directory entry.
use proj.Base.{
  ℕ, ◌+◌, ◌-◌, ◌*◌, ◌/◌, ◌%◌, ◌<◌, List, drop, ◌≡◌, if◌then◌else◌, ltb, arith, get_or-drop,
}
use proj.Base.{
  ◌∷◌, ◌++◌, length, take, take_all, take-append_lt, drop-append, get_or-append, subst, ap, sym,
  ◌∙◌, ◌==◌,
}
use proj.Fat.Bytes.{bytes_to_unsigned, bytes_loop}
use proj.Fat.Entries.{DateTime, fill_date, fill_time, dirent_size}
use proj.Fat.Entries.{short_name}
use proj.Base.{length}
use proj.Base.{get_or}
use proj.Base.{[]}

-- The FAT format: five bits of hours, six of minutes and five of pairs of seconds; seven bits of
-- years since 1980, four of months and five of days.
abbrev pub pack_time : (hour minute pairs : ℕ) → ℕ
pack_time hour minute pairs = hour * 2048 + minute * 32 + pairs

abbrev pub pack_date : (years month day : ℕ) → ℕ
pack_date years month day = years * 512 + month * 32 + day

-- A packed time whose fields are in range is decoded into its fields; hundredths from 100 on count
-- as a second.
pub fill_time-pack_time :
    (dt : DateTime) (hour minute pairs dh : ℕ)
    → hour < 32
    → minute < 64
    → pairs < 32
    → dh < 200
    → let w = pack_time hour minute pairs in
      let r = fill_time dt (w % 256) (w / 256) dh in
      (r.d_hour ≡ hour)
      × (r.d_minute ≡ minute)
      × (r.d_second ≡ 2 * pairs + dh / 100)
      × (r.d_hundredth ≡ dh % 100)
unfolding fill_time
fill_time-pack_time dt hour minute pairs dh h m p d = ground arith

-- A packed date whose fields are in range is decoded into its year and day, and into its month
-- where that is below 8; from August on the month comes out as 6 less.
pub fill_date-pack_date :
    (dt : DateTime) (years month day : ℕ)
    → years < 128
    → month < 16
    → day < 32
    → let w = pack_date years month day in
      let r = fill_date dt (w % 256) (w / 256) in
      (r.d_year ≡ 1980 + years)
      × (r.d_month ≡ (if ltb month 8 then month else month - 6))
      × (r.d_day ≡ day)
unfolding fill_date
fill_date-pack_date dt years month day y m d = ground arith

-- The size that fillDirEnt sums by hand is what bytesToUnsigned reads at the same place.
pub dirent_size-bytes_to_unsigned :
    (loc : List ℕ) → dirent_size loc ≡ bytes_to_unsigned (drop 28 loc) 4
unfolding dirent_size bytes_to_unsigned bytes_loop
dirent_size-bytes_to_unsigned loc = omega (
  arith,
  get_or-drop loc 28 0 0,
  get_or-drop loc 28 1 0,
  get_or-drop loc 28 2 0,
  get_or-drop loc 28 3 0,
)

-- An eight-character name and a three-character extension are copied with a separator between
-- them, a dot unless the extension begins with a blank, and a NUL behind them.
pub short_name-append :
    (name ext rest : List ℕ)
    → length name ≡ 8
    → length ext ≡ 3
    → short_name (name ++ (ext ++ rest))
      ≡ name ++ ((if get_or ext 0 0 == b' ' then b' ' else b'.') ∷ (ext ++ (0 ∷ [])))
unfolding short_name
short_name-append name ext rest e₈ e₃ =
    let first : take 8 (name ++ (ext ++ rest)) ≡ name =
      rw (take-append_lt 8 name (ext ++ rest) (omega (arith, e₈)))
        (take_all 8 name (omega (arith, e₈))) in
    let rest_of : drop 8 (name ++ (ext ++ rest)) ≡ ext ++ rest =
      subst (λ n. drop n (name ++ (ext ++ rest)) ≡ ext ++ rest) e₈
        (drop-append name (ext ++ rest)) in
    let third : take 3 (ext ++ rest) ≡ ext =
      rw (take-append_lt 3 ext rest (omega (arith, e₃))) (take_all 3 ext (omega (arith, e₃))) in
    let sep : get_or (name ++ (ext ++ rest)) 8 0 ≡ get_or ext 0 0 =
      sym (get_or-drop (name ++ (ext ++ rest)) 8 0 0)
      ∙ (ap (λ l. get_or l 0 0) rest_of ∙ get_or-append ext rest 0 (omega (arith, e₃))) in
    rw (first, sep, rest_of, third)
