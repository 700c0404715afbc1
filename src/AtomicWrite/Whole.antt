-- ===== src/AtomicWrite/Whole.antt =====
-- A file that is replaced is there in whole at every moment (main.go, atomicWriteFile).
use mathlib.Core.Option
use pia_wg_config_generator.Base.{
  ℕ, true, false, Option, none, some, List, [], ◌∷◌, ◌≡◌, ◌⊎◌, inl, inr, refl, ◌≢◌, sym, ap, ◌∙◌,
  All, take, Bool-cases,
}
use pia_wg_config_generator.Base.Text.{Text, text_eq, text_eq_iff}
use pia_wg_config_generator.Api.{ok, failed}
use pia_wg_config_generator.AtomicWrite.{
  File, Files, Disk, step, set_file, create_temp, write_bytes, chmod, remove, Written, whole, cut,
  DiskWorld, by_rename, by_close, by_chmod, by_write, clean_up, by_create, by_mkdir,
  atomic_write_file,
}

text_eq_self : (t : Text) → text_eq t t ≡ true
text_eq_self t = (text_eq_iff t t).1 refl

text_eq-different : (a b : Text) → (a ≡ b → ⊥) → text_eq a b ≡ false
text_eq-different a b h = elim (Bool-cases (text_eq a b)) [
  | inl same ↦ absurd (h ((text_eq_iff a b).0 same))
  | inr other ↦ other
]

set_file-same :
    (name : Text) (file : Option File) (files : Files) → set_file name file files name ≡ file
set_file-same name file files = rw (text_eq_self name) refl

set_file-other :
    (name n : Text) (file : Option File) (files : Files)
    → text_eq n name ≡ false
    → set_file name file files n ≡ files n
set_file-other name n file files other = rw other refl

-- Every state up to now has the old file.
abbrev Before : Text → Option File → Disk → Type 0
Before path old d = All (λ (g : Files). g path ≡ old) (d.now ∷ d.passed)

-- How a call ended: with the new file, or with an error and the old one.
abbrev pub HasEnded : Text → Option File → Option File → Disk → Option Text → Type 0
HasEnded path old new d r =
    ((r ≡ none) × (d.now path ≡ new)) ⊎ ((e : Text) × (r ≡ some e) × (d.now path ≡ old))

-- Every state that a call passes has the old file or the new one.
abbrev pub IsWhole : Text → Option File → Option File → Disk → Type 0
IsWhole path old new d = All (λ (g : Files). (g path ≡ old) ⊎ (g path ≡ new)) (d.now ∷ d.passed)

record Outcome (path tmp : Text) (old new : Option File) (x : Disk × Option Text) : Type 0 where
  states : IsWhole path old new x.0
  ended : HasEnded path old new x.0 x.1
  left : (x.0.now tmp ≡ none) ⊎ ((e : Text) × (x.1 ≡ some e))

All-old :
    (path : Text) (old new : Option File) (gs : List Files)
    → All (λ (g : Files). g path ≡ old) gs
    → All (λ (g : Files). (g path ≡ old) ⊎ (g path ≡ new)) gs
All-old path old new [] h = tt
All-old path old new (g ∷ gs) (h, hs) = (inl h, All-old path old new gs hs)

step-Before :
    (path : Text) (old : Option File) (f : Files → Files) (d : Disk)
    → f d.now path ≡ d.now path
    → Before path old d
    → Before path old (step f d)
step-Before path old f d same before = (same ∙ before.0, before)

-- What a call leaves: the old file or the new one in whole in every state that it passed, the new one
-- just if it returns no error, and no temporary file, unless its removal failed behind an error.
pub record IsReplaced (w : DiskWorld) (path tmp : Text) (old new : Option File)
    (x : Disk × Option Text) : Type 0 where
  pub states : IsWhole path old new x.0
  pub ended : HasEnded path old new x.0 x.1
  pub tidy : (x.0.now tmp ≡ none) ⊎ ((e e' : Text) × (x.1 ≡ some e) × (w.remove ≡ some e'))

-- A path and the name of a temporary file that is another one.
module _ (path tmp : Text) (distinct : text_eq path tmp ≡ false)
    (back : text_eq tmp path ≡ false) where
  failed-Outcome :
      (old new : Option File) (e : Text) (d : Disk)
      → Before path old d
      → Outcome path tmp old new (d, some e)
  failed-Outcome old new e d before = record {
    states = All-old path old new (d.now ∷ d.passed) before;
    ended = inr (e, refl, before.0);
    left = inr (e, refl);
  }

  by_rename-Outcome :
      (old new : Option File) (o : Option Text) (d : Disk)
      → d.now tmp ≡ new
      → Before path old d
      → Outcome path tmp old new (by_rename path tmp o d)
  unfolding by_rename
  by_rename-Outcome old new (some e) d staged before = failed-Outcome old new e d before
  by_rename-Outcome old new none d staged before =
      let placed = set_file-same path (d.now tmp) (set_file tmp none d.now) ∙ staged in
      record {
        states = (inr placed, All-old path old new (d.now ∷ d.passed) before);
        ended = inl (refl, placed);
        left = inl (
            set_file-other path tmp (d.now tmp) (set_file tmp none d.now) back
            ∙ set_file-same tmp none d.now);
      }

  by_close-Outcome :
      (w : DiskWorld) (old new : Option File) (o : Option Text) (d : Disk)
      → d.now tmp ≡ new
      → Before path old d
      → Outcome path tmp old new (by_close w path tmp o d)
  unfolding by_close
  by_close-Outcome w old new (some e) d staged before = failed-Outcome old new e d before
  by_close-Outcome w old new none d staged before =
      by_rename-Outcome old new w.rename d staged before

  by_chmod-Outcome :
      (w : DiskWorld) (old : Option File) (f : File) (perm : ℕ) (o : Option Text) (d : Disk)
      → d.now tmp ≡ some f
      → Before path old d
      → Outcome path tmp old (some (record f { perm = perm })) (by_chmod w path tmp perm o d)
  unfolding by_chmod
  by_chmod-Outcome w old f perm (some e) d staged before =
      failed-Outcome old (some (record f { perm = perm })) e d before
  by_chmod-Outcome w old f perm none d staged before =
      let changed =
        λ (file : Option File). Option.map (λ (g : File). record g { perm = perm }) file in
      by_close-Outcome w old (some (record f { perm = perm })) w.close (step (chmod tmp perm) d)
        (set_file-same tmp (changed (d.now tmp)) d.now ∙ ap changed staged)
        (step-Before path old (chmod tmp perm) d
          (set_file-other tmp path (changed (d.now tmp)) d.now distinct) before)

  by_write-Outcome :
      (w : DiskWorld) (old : Option File) (f : File) (bytes : Text) (perm : ℕ) (v : Written)
      (d : Disk)
      → d.now tmp ≡ some f
      → Before path old d
      → Outcome path tmp old
          (some (record { content = bytes; perm = perm }))
          (by_write w path tmp bytes perm v d)
  unfolding by_write
  by_write-Outcome w old f bytes perm v d staged before = by_written v
    where
      still : (b : Text) → Before path old (step (write_bytes tmp b) d)
      still b =
          step-Before path old (write_bytes tmp b) d
            (set_file-other tmp path
              (Option.map (λ (g : File). record g { content = b }) (d.now tmp)) d.now distinct)
            before

      by_written :
          (v : Written)
          → Outcome path tmp old
              (some (record { content = bytes; perm = perm }))
              (by_write w path tmp bytes perm v d)
      by_written (cut n e) =
          failed-Outcome old (some (record { content = bytes; perm = perm })) e
            (step (write_bytes tmp (take n bytes)) d) (still (take n bytes))
      by_written whole =
          by_chmod-Outcome w old (record f { content = bytes }) perm w.chmod
            (step (write_bytes tmp bytes) d)
            (set_file-same tmp (Option.map (λ (g : File). record g { content = bytes }) (d.now tmp))
                d.now
              ∙ ap (Option.map (λ (g : File). record g { content = bytes })) staged)
            (still bytes)

  clean_up-IsReplaced :
      (w : DiskWorld) (old new : Option File) (o : Option Text) (x : Disk × Option Text)
      → w.remove ≡ o
      → Outcome path tmp old new x
      → IsReplaced w path tmp old new (clean_up tmp o x)
  unfolding clean_up
  clean_up-IsReplaced w old new none (d, r) e out = record {
    states = (kept_state out.states.0, out.states);
    ended = kept_end out.ended;
    tidy = inl (set_file-same tmp none d.now);
  }
    where
      kept : remove tmp d.now path ≡ d.now path
      kept = set_file-other tmp path none d.now distinct

      kept_state :
          (d.now path ≡ old) ⊎ (d.now path ≡ new)
          → (remove tmp d.now path ≡ old) ⊎ (remove tmp d.now path ≡ new)
      kept_state (inl h) = inl (kept ∙ h)
      kept_state (inr h) = inr (kept ∙ h)

      kept_end : HasEnded path old new d r → HasEnded path old new (step (remove tmp) d) r
      kept_end (inl (done, h)) = inl (done, kept ∙ h)
      kept_end (inr (why, is_why, h)) = inr (why, is_why, kept ∙ h)
  clean_up-IsReplaced w old new (some x) (d, r) e out = record {
    states = out.states;
    ended = out.ended;
    tidy = elim out.left [ inl gone ↦ inl gone | inr (why, is_why) ↦ inr (why, x, is_why, e) ];
  }

  by_create-IsReplaced :
      (w : DiskWorld) (old : Option File) (bytes : Text) (perm : ℕ) (d : Disk)
      → Before path old d
      → IsReplaced w path tmp old
          (some (record { content = bytes; perm = perm }))
          (by_create w path bytes perm (ok tmp) d)
  unfolding by_create
  by_create-IsReplaced w old bytes perm d before =
      let created : File = record { content = []; perm = 384 } in
      clean_up-IsReplaced w old (some (record { content = bytes; perm = perm })) w.remove
        (by_write w path tmp bytes perm w.write (step (create_temp tmp) d)) refl
        (by_write-Outcome w old created bytes perm w.write (step (create_temp tmp) d)
          (set_file-same tmp (some created) d.now)
          (step-Before path old (create_temp tmp) d
            (set_file-other tmp path (some created) d.now distinct) before))

  -- A call that stopped before there was a temporary file.
  stopped-IsReplaced :
      (w : DiskWorld) (old new : Option File) (e : Text) (d : Disk)
      → d.now tmp ≡ none
      → Before path old d
      → IsReplaced w path tmp old new (d, some e)
  stopped-IsReplaced w old new e d fresh before =
      let out = failed-Outcome old new e d before in
      record { states = out.states; ended = out.ended; tidy = inl fresh }

  by_mkdir-IsReplaced :
      (w : DiskWorld) (old : Option File) (bytes : Text) (perm : ℕ) (o : Option Text) (d : Disk)
      → (w.create ≡ ok tmp) ⊎ ((e : Text) × (w.create ≡ failed e))
      → d.now tmp ≡ none
      → Before path old d
      → IsReplaced w path tmp old
          (some (record { content = bytes; perm = perm }))
          (by_mkdir w path bytes perm o d)
  unfolding by_mkdir by_create
  by_mkdir-IsReplaced w old bytes perm (some e) d created fresh before =
      stopped-IsReplaced w old (some (record { content = bytes; perm = perm })) e d fresh before
  by_mkdir-IsReplaced w old bytes perm none d (inl created) fresh before =
      simp created (by_create-IsReplaced w old bytes perm d before)
  by_mkdir-IsReplaced w old bytes perm none d (inr (e, refused)) fresh before =
      simp refused
        (stopped-IsReplaced w old (some (record { content = bytes; perm = perm })) e d fresh before)

-- Whatever calls fail, and wherever a write breaks off: at every moment of atomicWriteFile the path
-- has the file that was there before, or the new one in whole with its permissions; it has the new one
-- in the end just if no error is returned; and the temporary file is gone then, unless its removal
-- fails behind an error. The creation of the temporary file fails, or makes one that was not there,
-- under another path.
pub atomic_write_file-IsReplaced :
    (w : DiskWorld) (path bytes tmp : Text) (perm : ℕ) (files : Files)
    → (w.create ≡ ok tmp) ⊎ ((e : Text) × (w.create ≡ failed e))
    → files tmp ≡ none
    → path ≢ tmp
    → IsReplaced w path tmp
        (files path)
        (some (record { content = bytes; perm = perm }))
        (atomic_write_file w path bytes perm (record { now = files; passed = [] }))
unfolding atomic_write_file
atomic_write_file-IsReplaced w path bytes tmp perm files created fresh distinct =
    by_mkdir-IsReplaced path tmp (text_eq-different path tmp distinct)
      (text_eq-different tmp path (λ e. distinct (sym e))) w (files path) bytes perm w.mkdir_all
      (record { now = files; passed = [] }) created fresh (refl, tt)
