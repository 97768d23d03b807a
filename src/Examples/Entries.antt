-- ===== src/Examples/Entries.antt =====
-- Fields of directory entries, written and read (Dir.cpp, FATData.cpp).
use proj.Base.{arith, ◌%◌, ◌/◌, ◌≡◌}
use proj.Examples.Fat.{no_date}
use proj.Fat.Entries.{fill_date, fill_time}
use proj.Fat.Entries.Decoding.{fill_date-pack_date, fill_time-pack_time, pack_date, pack_time}

fill_time-pack_time_example :
    ((fill_time no_date (pack_time 13 45 29 % 256) (pack_time 13 45 29 / 256) 150).d_hour ≡ 13)
    × ((fill_time no_date (pack_time 13 45 29 % 256) (pack_time 13 45 29 / 256) 150).d_minute ≡ 45)
    × ((fill_time no_date (pack_time 13 45 29 % 256) (pack_time 13 45 29 / 256) 150).d_second ≡ 59)
    × ((fill_time no_date (pack_time 13 45 29 % 256) (pack_time 13 45 29 / 256) 150).d_hundredth
        ≡ 50)
fill_time-pack_time_example =
    fill_time-pack_time no_date 13 45 29 150 (omega arith) (omega arith) (omega arith) (omega arith)

fill_date-pack_date_example :
    ((fill_date no_date (pack_date 33 12 9 % 256) (pack_date 33 12 9 / 256)).d_year ≡ 2013)
    × ((fill_date no_date (pack_date 33 12 9 % 256) (pack_date 33 12 9 / 256)).d_month ≡ 6)
    × ((fill_date no_date (pack_date 33 12 9 % 256) (pack_date 33 12 9 / 256)).d_day ≡ 9)
fill_date-pack_date_example =
    fill_date-pack_date no_date 33 12 9 (omega arith) (omega arith) (omega arith)
