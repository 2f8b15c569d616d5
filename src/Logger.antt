-- ===== src/Logger.antt =====
-- log.go: the filter by level, the two outputs and the rotation of the log file. The file system is
-- taken from outside; the text of a message is what fmt makes of the parameters.
pub mod Outputs
mod Tests
use mathlib.Core.Option
use gateway_lite.Common.Strconv.{format_uint}
use gateway_lite.Common.Int.{ℤ, ltb_ℤ, pos}
use gateway_lite.Common.{
  Bytes, none, some, [], nat_eq, bytes_eq, List, Map, MapOrder, Option, ℕ, if◌then◌else◌, insert,
  ◌++◌, ltb, utf8, ◌==◌, ◌||◌, ◌∷◌, Bool,
}

abbrev pub lv_debug : ℕ
lv_debug = 0

abbrev pub lv_info : ℕ
lv_info = 1

abbrev pub lv_warn : ℕ
lv_warn = 2

abbrev pub lv_error : ℕ
lv_error = 3

-- The map of the names; a level that it lacks has an empty one.
loglevel : ℕ → Bytes
loglevel level =
    if level == lv_debug
    then utf8 "DEBUG"
    else if level == lv_info
    then utf8 "INFO"
    else if level == lv_warn
    then utf8 "WARN"
    else if level == lv_error
    then utf8 "ERROR"
    else []

-- One file, for all levels.
abbrev pub log_file_names : Map ℕ Bytes
log_file_names = (0, utf8 ".log") ∷ []

abbrev pub log_file : ℕ
log_file = 0

abbrev pub log_console : ℕ
log_console = 1

abbrev pub log_file_and_console : ℕ
log_file_and_console = 2

-- The logger over handles of open files: `logger` is the output of each log.Logger, and `files` the
-- file that checkFile looks at.
pub record Logger (H : Type 0) : Type 0 where
  pub loggers : Map ℕ H
  pub files : Map ℕ H
  pub level : ℕ
  pub log_dir : Bytes
  pub line_ending : Bytes
  pub pid : ℕ
  pub max_log_size : ℤ
  pub mode : ℕ

-- What a call prints: to the logger of level 0, and to the console.
pub record Printed : Type 0 where
  pub to_file : List Bytes
  pub to_console : List Bytes

-- The package os: the state of the file system with the size and the name of an open file, where
-- it can be read, and the calls that change it.
pub record Os (H F : Type 0) : Type 0 where
  pub stat : H → F → Option (ℕ × Bytes)
  pub close : H → F → F
  pub remove : Bytes → F → F
  pub rename : Bytes → Bytes → F → F
  pub open_append : Bytes → F → F × Option H
  pub mkdir_all : Bytes → F → F
  pub chmod : Bytes → F → F

module _ {H : Type 0} where
  unfoldable pub set_level : ℕ → Logger H → Logger H
  set_level level l = record l { level = level }

  unfoldable pub set_mode : ℕ → Logger H → Logger H
  set_mode mode l = record l { mode = mode }

  abbrev line : Logger H → ℕ → Bytes → Bytes
  line l level text =
      format_uint l.pid ++ (utf8 " " ++ (loglevel level ++ (utf8 " " ++ (text ++ l.line_ending))))

  -- Printf and Println, which differ in how fmt makes the text.
  unfoldable pub print : Logger H → ℕ → Bytes → Printed
  unfolding loglevel
  print l level text =
      if ltb level l.level then record { to_file = []; to_console = [] } else record {
        to_file =
            if l.mode == log_file || l.mode == log_file_and_console
            then line l level text ∷ []
            else [];
        to_console =
            if l.mode == log_console || l.mode == log_file_and_console
            then line l level text ∷ []
            else [];
      }

  module _ {F : Type 0} (os : Os H F) where
    -- A file that is open goes to the logger of its level.
    reopened : ℕ → Logger H → F × Option H → Logger H × F
    reopened lv l (fs, none) = (l, fs)
    reopened lv l (fs, some h) =
        (record l { loggers = insert lv h l.loggers; files = insert lv h l.files }, fs)

    -- The file is moved to its backup, and a new one opened under its name.
    rotate : ℕ → H → Bytes → Logger H → F → Logger H × F
    rotate lv h name l fs =
        let path = l.log_dir ++ name in
        let backup = path ++ utf8 ".0" in
        reopened lv l
          (os.open_append path (os.rename path backup (os.remove backup (os.close h fs))))

    check_one : ℕ → H → Logger H → F → Option (ℕ × Bytes) → Logger H × F
    check_one lv h l fs none = (l, fs)
    check_one lv h l fs (some (size, name)) =
        if ltb_ℤ l.max_log_size (pos size) then rotate lv h name l fs else (l, fs)

    check_all : List (ℕ × H) → Logger H → F → Logger H × F
    check_all [] l fs = (l, fs)
    check_all ((lv, h) ∷ files) l fs =
        let next = check_one lv h l fs (os.stat h fs) in check_all files next.0 next.1

    -- One tick of checkFile, over the files in the order of the loop.
    unfoldable pub check_file : MapOrder → Logger H → F → Logger H × F
    unfolding check_one rotate reopened check_all
    check_file order l fs =
        if ltb_ℤ (pos 0) l.max_log_size then check_all (order.visit l.files) l fs else (l, fs)

    -- The files of the levels that have a name, where each can be opened: log.Fatal ends the process
    -- where one cannot.
    open_all : Bytes → List (ℕ × Bytes) → F → F × Option (Map ℕ H)
    open_all prefix [] fs = (fs, some [])
    open_all prefix ((lv, name) ∷ names) fs =
        let path = prefix ++ name in
        let opened = os.open_append path fs in
        let rest = open_all prefix names (os.chmod path opened.0) in
        elim opened.1 [
          | none ↦ (opened.0, none)
          | some h ↦ (rest.0, Option.map (insert lv h) rest.1)
        ]

    -- NewLogger, on windows or not.
    unfoldable pub new_logger : Bool → ℕ → Bytes → Bytes → ℕ → ℤ → ℕ → F → F × Option (Logger H)
    unfolding open_all
    new_logger is_windows pid path file_prefix level max_log_size mode fs =
        let log_dir = if path == [] then utf8 "log/" else path ++ utf8 "/log/" in
        let opened = open_all (log_dir ++ file_prefix) log_file_names (os.mkdir_all log_dir fs) in
        (
          opened.0,
          Option.map
              (λ files. record {
                loggers = files;
                files = files;
                level = level;
                log_dir = log_dir;
                line_ending = if is_windows then utf8 "\r\n" else utf8 "\n";
                pid = pid;
                max_log_size = max_log_size;
                mode = mode;
              })
              opened.1,
        )
