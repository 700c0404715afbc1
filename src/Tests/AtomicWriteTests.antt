-- ===== src/Tests/AtomicWriteTests.antt =====
-- wg0.conf is replaced, and then the rename fails.
use pia_wg_config_generator.Base.{none, some, [], inl, ◌≡◌, ◌≢◌, refl, if◌then◌else◌}
use pia_wg_config_generator.Base.Text.{Text, codes, text_eq}
use pia_wg_config_generator.Api.{ok}
use pia_wg_config_generator.AtomicWrite.{Files, DiskWorld, whole, atomic_write_file}
use pia_wg_config_generator.AtomicWrite.Whole.{IsReplaced, atomic_write_file-IsReplaced}

abbrev path : Text
path = codes "wg0.conf"

abbrev tmp : Text
tmp = codes ".tmp-1"

abbrev before : Files
before = λ n. if text_eq n path then some record { content = codes "old"; perm = 420 } else none

-- The disk is full: os.Rename fails, and the temporary file is removed.
abbrev failing : DiskWorld
failing = record {
  mkdir_all = none;
  create = ok tmp;
  write = whole;
  chmod = none;
  close = none;
  rename = some (codes "no space");
  remove = none;
}

other_path : path ≢ tmp
other_path e = cc

kept :
    (atomic_write_file failing path (codes "new") 420 (record { now = before; passed = [] })).1
    ≡ some (codes "no space")
unfolding atomic_write_file
kept = refl

atomic_write_file-IsReplaced_example :
    IsReplaced failing path tmp
      (some record { content = codes "old"; perm = 420 })
      (some record { content = codes "new"; perm = 420 })
      (atomic_write_file failing path (codes "new") 420 (record { now = before; passed = [] }))
unfolding text_eq
atomic_write_file-IsReplaced_example =
    atomic_write_file-IsReplaced failing path (codes "new") tmp 420 before (inl refl) refl
      other_path
