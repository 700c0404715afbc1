-- ===== src/AtomicWrite.antt =====
-- atomicWriteFile (main.go) and atomicWriteState (pia/lifetime.go), system call by system call: the
-- files at each moment, so that a reader, or a restart behind a crash, may look in between.
pub mod Whole
use mathlib.Core.Option
use pia_wg_config_generator.Base.{
  ℕ, Bool, true, false, Option, none, some, List, [], ◌∷◌, take, if◌then◌else◌,
}
use pia_wg_config_generator.Base.Text.{Text, text_eq}
use pia_wg_config_generator.Api.{Answer, ok, failed}

-- A file: its bytes and its permissions.
pub record File : Type 0 where
  pub content : Text
  pub perm : ℕ

-- The files by their paths.
abbrev pub Files : Type 0
Files = Text → Option File

-- The files now, and the states before, the newest first.
pub record Disk : Type 0 where
  pub now : Files
  pub passed : List Files

abbrev pub step : (Files → Files) → Disk → Disk
step f d = record { now = f d.now; passed = d.now ∷ d.passed }

abbrev pub set_file : Text → Option File → Files → Files
set_file name file files = λ n. if text_eq n name then file else files n

-- What the calls do to the files when they succeed: os.CreateTemp (with permissions 0600), Write,
-- Chmod, os.Rename and os.Remove.
abbrev pub create_temp : Text → Files → Files
create_temp name = set_file name (some record { content = []; perm = 384 })

abbrev pub write_bytes : Text → Text → Files → Files
write_bytes name bytes files =
    set_file name (Option.map (λ (f : File). record f { content = bytes }) (files name)) files

abbrev pub chmod : Text → ℕ → Files → Files
chmod name perm files =
    set_file name (Option.map (λ (f : File). record f { perm = perm }) (files name)) files

abbrev pub rename : Text → Text → Files → Files
rename from to files = set_file to (files from) (set_file from none files)

abbrev pub remove : Text → Files → Files
remove name = set_file name none

-- What Write comes to: all of the bytes, or an error behind the first ones.
pub data Written : Type 0 where
  whole : Written
  cut : ℕ → Text → Written

-- The errors of the calls, and the name that os.CreateTemp takes.
pub record DiskWorld : Type 0 where
  pub mkdir_all : Option Text
  pub create : Answer Text
  pub write : Written
  pub chmod : Option Text
  pub close : Option Text
  pub rename : Option Text
  pub remove : Option Text

by_rename : Text → Text → Option Text → Disk → Disk × Option Text
by_rename path tmp (some e) d = (d, some e)
by_rename path tmp none d = (step (rename tmp path) d, none)

by_close : DiskWorld → Text → Text → Option Text → Disk → Disk × Option Text
unfolding by_rename
by_close w path tmp (some e) d = (d, some e)
by_close w path tmp none d = by_rename path tmp w.rename d

by_chmod : DiskWorld → Text → Text → ℕ → Option Text → Disk → Disk × Option Text
unfolding by_close
by_chmod w path tmp perm (some e) d = (d, some e)
by_chmod w path tmp perm none d = by_close w path tmp w.close (step (chmod tmp perm) d)

by_write : DiskWorld → Text → Text → Text → ℕ → Written → Disk → Disk × Option Text
unfolding by_chmod
by_write w path tmp bytes perm (cut n e) d = (step (write_bytes tmp (take n bytes)) d, some e)
by_write w path tmp bytes perm whole d =
    by_chmod w path tmp perm w.chmod (step (write_bytes tmp bytes) d)

-- The deferred os.Remove, whose error is ignored.
clean_up : Text → Option Text → Disk × Option Text → Disk × Option Text
clean_up tmp (some e) (d, result) = (d, result)
clean_up tmp none (d, result) = (step (remove tmp) d, result)

by_create : DiskWorld → Text → Text → ℕ → Answer Text → Disk → Disk × Option Text
unfolding by_write clean_up
by_create w path bytes perm (failed e) d = (d, some e)
by_create w path bytes perm (ok tmp) d =
    clean_up tmp w.remove (by_write w path tmp bytes perm w.write (step (create_temp tmp) d))

by_mkdir : DiskWorld → Text → Text → ℕ → Option Text → Disk → Disk × Option Text
unfolding by_create
by_mkdir w path bytes perm (some e) d = (d, some e)
by_mkdir w path bytes perm none d = by_create w path bytes perm w.create d

-- atomicWriteFile, with the error that it returns.
unfoldable pub atomic_write_file : DiskWorld → Text → Text → ℕ → Disk → Disk × Option Text
unfolding by_mkdir
atomic_write_file w path bytes perm d = by_mkdir w path bytes perm w.mkdir_all d

-- atomicWriteState, the same sequence.
abbrev pub atomic_write_state : DiskWorld → Text → Text → ℕ → Disk → Disk × Option Text
atomic_write_state = atomic_write_file
