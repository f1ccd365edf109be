-- ===== src/Conf/Tests.antt =====
-- A configuration of three lines, and the theorem at it.
use sginx.Base.{fill, ℕ, ◌≡◌, refl, none, some, Option, List, [], ◌∷◌, arith, All}
use sginx.Base.Run.{Run, ok, Returns}
use sginx.Conf.{
  Conf, Reading, Outcome, fgets_line, string_of, split_delim, digits, atoi, conf_loop, read_conf,
}
use sginx.Conf.Settings.{Setting, root, port, threads, IsSetting, file_text, assign_all}
use sginx.Conf.Stops.{broken_text, Stopped, read_conf-stops}
use sginx.Conf.Read.{IsRead, read_conf-IsRead}

-- "root=./html", "port=8080" and "threadnum=4"
abbrev settings : List Setting
settings =
    root (b'.' ∷ b'/' ∷ b'h' ∷ b't' ∷ b'm' ∷ b'l' ∷ [])
    ∷ port b'8' (b'0' ∷ b'8' ∷ b'0' ∷ [])
    ∷ threads b'4' []
    ∷ []

settings-IsSetting : All IsSetting settings
settings-IsSetting = (omega arith, ((omega arith, omega arith), ((omega arith, omega arith), tt)))

abbrev nothing_read : Reading
nothing_read = record { buf = λ i. 255; conf = record { root = none; port = 0; thread_num = 0 } }

abbrev conf_of : Run Outcome → Option Conf
conf_of (ok o) = some o.reading.conf
conf_of _ = none

abbrev byte_of : Run Outcome → ℕ → Option ℕ
byte_of (ok o) i = some (o.reading.buf i)
byte_of _ i = none

read_test :
    conf_of (read_conf (some (file_text settings)) nothing_read 64)
    ≡ some (record { root = some 5; port = 8080; thread_num = 4 })
unfolding read_conf conf_loop fgets_line string_of split_delim digits atoi
read_test = refl

-- with a buffer of 16 bytes, the lines and the NUL at the offset 34 lie behind the buffer
overrun_test : byte_of (read_conf (some (file_text settings)) nothing_read 16) 34 ≡ some 0
unfolding read_conf conf_loop fgets_line string_of split_delim digits atoi fill
overrun_test = refl

read_conf-IsRead_example :
    Returns (IsRead 0 settings nothing_read) (read_conf (some (file_text settings)) nothing_read 16)
read_conf-IsRead_example =
    read_conf-IsRead settings nothing_read 16 settings-IsSetting
      (omega arith, (omega arith, (omega arith, tt)))

-- a line without '='
abbrev bad : List ℕ
bad = b'#' ∷ b'x' ∷ []

read_conf-stops_example :
    Returns
      (Stopped (assign_all 0 settings nothing_read.conf))
      (read_conf (some (broken_text settings bad (b'p' ∷ []))) nothing_read 64)
read_conf-stops_example =
    read_conf-stops settings bad (b'p' ∷ []) nothing_read 64 settings-IsSetting
      (omega arith, (omega arith, (omega arith, tt))) (omega arith) (omega arith) (omega arith)
