-- ===== src/Logger/Tests.antt =====
-- The filter, and a rotation over a file system that counts its calls.
use gateway_lite.Logger.Outputs.{IsPaired, ticks, levels, checks, modes, new_logger-IsPaired}
use gateway_lite.Common.Int.{pos}
use gateway_lite.Common.Strconv.{format_uint}
use gateway_lite.Logger.{
  Logger, Os, check_file, print, set_mode, set_level, lv_info, lv_debug, log_console,
  log_file_and_console, lv_warn, new_logger,
}
use gateway_lite.Common.{
  refl, some, [], nat_eq, bytes_eq, List, in_order, ℕ, Bytes, ◌∷◌, ◌≡◌, utf8, ◌++◌, false,
}

abbrev logger : Logger ℕ
logger = record {
  loggers = (0, 7) ∷ [];
  files = (0, 7) ∷ [];
  level = lv_info;
  log_dir = utf8 "/log/";
  line_ending = utf8 "\n";
  pid = 42;
  max_log_size = pos 100;
  mode = log_file_and_console;
}

printed :
    (print logger lv_debug (utf8 "x") ≡ record { to_file = []; to_console = [] })
    × (print (set_mode log_console logger) lv_warn (utf8 "x")
        ≡ record { to_file = []; to_console = utf8 "42 WARN x\n" ∷ [] })
    × (print (set_level lv_debug logger) lv_debug (utf8 "x")
        ≡ record { to_file = utf8 "42 DEBUG x\n" ∷ []; to_console = utf8 "42 DEBUG x\n" ∷ [] })
unfolding print set_mode set_level format_uint
printed = (refl, refl, refl)

abbrev os : Os ℕ (List Bytes)
os = record {
  stat = λ h fs. some (101, utf8 "openp2p.log");
  close = λ h fs. fs ++ utf8 "close" ∷ [];
  remove = λ path fs. fs ++ path ∷ [];
  rename = λ old new fs. fs ++ old ∷ new ∷ [];
  open_append = λ path fs. (fs ++ path ∷ [], some 8);
  mkdir_all = λ path fs. fs ++ path ∷ [];
  chmod = λ path fs. fs;
}

rotated : check_file os in_order logger [] ≡ (
  record logger { loggers = (0, 8) ∷ []; files = (0, 8) ∷ [] },
  utf8 "close"
      ∷ utf8 "/log/openp2p.log.0"
      ∷ utf8 "/log/openp2p.log"
      ∷ utf8 "/log/openp2p.log.0"
      ∷ utf8 "/log/openp2p.log"
      ∷ [],
)
unfolding check_file
rotated = refl

-- NewLogger with what main gives it.
abbrev fresh : Logger ℕ
fresh = record logger { loggers = (0, 8) ∷ []; files = (0, 8) ∷ []; log_dir = utf8 "/bin/log/" }

opened :
    new_logger os false 42 (utf8 "/bin") (utf8 "openp2p") lv_info (pos 100) log_file_and_console []
    ≡ (utf8 "/bin/log/" ∷ utf8 "/bin/log/openp2p.log" ∷ [], some fresh)
unfolding new_logger
opened = refl

new_logger-IsPaired_example :
    IsPaired os (ticks os fresh (levels lv_warn ∷ checks in_order [] ∷ modes log_console ∷ []))
new_logger-IsPaired_example =
    new_logger-IsPaired os false 42 (utf8 "/bin") (utf8 "openp2p") lv_info (pos 100)
      log_file_and_console [] (utf8 "/bin/log/" ∷ utf8 "/bin/log/openp2p.log" ∷ []) fresh
      (levels lv_warn ∷ checks in_order [] ∷ modes log_console ∷ []) opened
