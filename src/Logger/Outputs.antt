-- ===== src/Logger/Outputs.antt =====
-- log.go: the file that a logger prints to, and the one that `checkFile` looks at.
use gateway_lite.Common.Int.{ltb_ℤ, pos, ℤ}
use gateway_lite.Logger.{
  Os, Logger, check_all, check_file, check_one, reopened, rotate, new_logger, set_level, set_mode,
}
use gateway_lite.Common.{
  ◌∷◌, [], Bool, none, some, inl, inr, [], nat_eq, bytes_eq, ℕ, List, MapOrder, Option, ◌≡◌,
  Bool-cases, Bytes, ap, insert, arith,
}

module _ {H F : Type 0} (os : Os H F) where
  -- The two maps have the same handles.
  abbrev pub IsPaired : Logger H → Type 0
  IsPaired l = l.loggers ≡ l.files

  reopened-IsPaired :
      (lv : ℕ) (l : Logger H) (o : F × Option H) → IsPaired l → IsPaired (reopened os lv l o).0
  unfolding reopened
  reopened-IsPaired lv l (fs, none) p = p
  reopened-IsPaired lv l (fs, some h) p = ap (insert lv h) p

  check_one-IsPaired :
      (lv : ℕ) (h : H) (l : Logger H) (fs : F) (o : Option (ℕ × Bytes))
      → IsPaired l
      → IsPaired (check_one os lv h l fs o).0
  unfolding check_one rotate
  check_one-IsPaired lv h l fs none p = p
  check_one-IsPaired lv h l fs (some (size, name)) p =
      elim (Bool-cases (ltb_ℤ l.max_log_size (pos size))) [
        | inl y ↦ rw (y, check_one) (reopened-IsPaired lv l _ p)
        | inr n ↦ rw (n, check_one) p
      ]

  check_all-IsPaired :
      (files : List (ℕ × H)) (l : Logger H) (fs : F)
      → IsPaired l
      → IsPaired (check_all os files l fs).0
  unfolding check_all
  check_all-IsPaired [] l fs p = p
  check_all-IsPaired ((lv, h) ∷ files) l fs p =
      check_all-IsPaired files _ _ (check_one-IsPaired lv h l fs (os.stat h fs) p)

  check_file-IsPaired :
      (order : MapOrder) (l : Logger H) (fs : F)
      → IsPaired l
      → IsPaired (check_file os order l fs).0
  unfolding check_file
  check_file-IsPaired order l fs p = elim (Bool-cases (ltb_ℤ (pos 0) l.max_log_size)) [
    | inl y ↦ rw (y, check_file) (check_all-IsPaired (order.visit l.files) l fs p)
    | inr n ↦ rw (n, check_file) p
  ]

  -- What happens between two ticks: the level or the mode changes, and so does the file system.
  pub data Tick : Type 1 where
    levels : ℕ → Tick
    modes : ℕ → Tick
    checks : MapOrder → F → Tick

  -- The logger after them.
  unfoldable pub ticks : Logger H → List Tick → Logger H
  ticks l [] = l
  ticks l (levels level ∷ ts) = ticks (set_level level l) ts
  ticks l (modes mode ∷ ts) = ticks (set_mode mode l) ts
  ticks l (checks order fs ∷ ts) = ticks (check_file os order l fs).0 ts

  ticks-IsPaired : (l : Logger H) (ts : List Tick) → IsPaired l → IsPaired (ticks l ts)
  unfolding ticks set_level set_mode
  ticks-IsPaired l [] p = p
  ticks-IsPaired l (levels level ∷ ts) p = ticks-IsPaired (set_level level l) ts p
  ticks-IsPaired l (modes mode ∷ ts) p = ticks-IsPaired (set_mode mode l) ts p
  ticks-IsPaired l (checks order fs ∷ ts) p =
      ticks-IsPaired (check_file os order l fs).0 ts (check_file-IsPaired order l fs p)

  -- However often the level and the mode change and the files are checked, and whatever the file
  -- system does, a logger that was opened prints to the very files whose size the next check
  -- looks at.
  pub new_logger-IsPaired :
      (is_windows : Bool) (pid : ℕ) (path file_prefix : Bytes) (level : ℕ) (max_log_size : ℤ)
      (mode : ℕ) (fs gs : F) (l : Logger H) (ts : List Tick)
      → new_logger os is_windows pid path file_prefix level max_log_size mode fs ≡ (gs, some l)
      → IsPaired (ticks l ts)
  unfolding new_logger
  new_logger-IsPaired is_windows pid path file_prefix level max_log_size mode fs gs l ts e =
      ticks-IsPaired l ts (ground (arith, e))
