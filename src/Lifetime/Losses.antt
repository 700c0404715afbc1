-- ===== src/Lifetime/Losses.antt =====
-- The lifetime file over births and losses (pia/lifetime.go, RecordNewRegistration and
-- RecordObservedLoss).
use pia_wg_config_generator.Base.{
  ℕ, ◌+◌, ◌-◌, ◌/◌, ◌≤◌, ◌<◌, false, Option, none, some, List, [], ◌∷◌, ◌++◌, ◌≡◌, refl, ap, ◌∙◌,
  ◌⊎◌, inl, inr, arith, length, drop, length-append, Bool-cases, length-drop, ◌≢◌, true, ltb,
}
use pia_wg_config_generator.Base.Int.{ℤ, pos, ◌≤ℤ◌, ◌<ℤ◌, leb_ℤ}
use pia_wg_config_generator.Base.Text.{Text}
use pia_wg_config_generator.Clock.{Time, sub, is_zero, zero_time}
use pia_wg_config_generator.Clock.Order.{sub-nonpos, sub-add}
use pia_wg_config_generator.Clock.Float.{whole_seconds, whole_seconds-eq-div, two_53}
use pia_wg_config_generator.Lifetime.{
  LifetimeRecord, RecordFile, holds, load, save, newest, max_observed, record_version,
  record_new_registration, record_observed_loss, registration_age, record_loss, record_age,
  record_birth,
}

-- What a recorded loss makes of the record `rec`: the whole seconds between its birth and `now`
-- come last, behind the older values but for those beyond 20 in all; the birth is kept.
pub record IsRecorded (now : Time) (rec : LifetimeRecord) (file : RecordFile) : Type 0 where
  pub window : List ℤ
  pub file_is :
      file
      ≡ holds (record rec { version = record_version; observed = window; last_observed_loss = now })
  pub window_is :
      window
      ≡ drop
          (length rec.observed + 1 - 20)
          (rec.observed ++ whole_seconds (sub now rec.current_registration) ∷ [])
  pub bounded : length window ≤ 20
  pub born_before : pos 0 <ℤ sub now rec.current_registration

newest-eq-drop : (xs : List ℤ) → newest xs ≡ drop (length xs - 20) xs
unfolding newest
newest-eq-drop xs = elim (Bool-cases (ltb max_observed (length xs))) [
  | inl many ↦ rw many refl
  | inr few ↦ let none_over : length xs - 20 ≡ 0 = ground arith in rw (few, none_over) refl
]

-- One value more, and the window is cut.
newest-snoc :
    (xs : List ℤ) (x : ℤ) → newest (xs ++ x ∷ []) ≡ drop (length xs + 1 - 20) (xs ++ x ∷ [])
newest-snoc xs x =
    newest-eq-drop (xs ++ x ∷ [])
    ∙ ap (λ n. drop (n - 20) (xs ++ x ∷ [])) (length-append xs (x ∷ []))

newest-bounded : (xs : List ℤ) → length (newest xs) ≤ max_observed
unfolding newest
newest-bounded xs = ground (arith, length-drop (length xs - max_observed) xs)

-- Why nothing was recorded, and with which error `r` returns.
pub data IsSkipped (written : Option Text) (now : Time) (file : RecordFile)
    (r : RecordFile × LifetimeRecord × Option Text) : Type 0 where
  unread : (e : Text) → (load file).1 ≡ some e → r.2 ≡ some e → IsSkipped written now file r
  unborn :
      (load file).0.current_registration ≡ zero_time → r.2 ≡ none → IsSkipped written now file r
  not_older :
      sub now (load file).0.current_registration ≤ℤ pos 0
      → r.2 ≡ none
      → IsSkipped written now file r
  unwritten : (e : Text) → written ≡ some e → r.2 ≡ some e → IsSkipped written now file r

-- The loss was recorded without an error, of a registration whose birth is known.
pub record HasRecorded (written : Option Text) (now : Time) (file : RecordFile)
    (r : RecordFile × LifetimeRecord × Option Text) : Type 0 where
  pub readable : (load file).1 ≡ none
  pub born : (load file).0.current_registration ≢ zero_time
  pub is_written : written ≡ none
  pub no_error : r.2 ≡ none
  pub recorded : IsRecorded now (load file).0 r.0

-- What a loss does to the file: nothing, for a reason, or it is recorded.
abbrev pub Records :
    Option Text → Time → RecordFile → RecordFile × LifetimeRecord × Option Text → Type 0
Records written now file r =
    ((r.0 ≡ file) × IsSkipped written now file r) ⊎ HasRecorded written now file r

zero_of : (t : Time) → is_zero t ≡ true → t ≡ zero_time
zero_of t h = ground arith

not_zero_of : (t : Time) → is_zero t ≡ false → t ≢ zero_time
not_zero_of t h = ground arith

-- The record with its age behind the older ones.
abbrev aged : Time → LifetimeRecord → LifetimeRecord
aged now rec = record rec {
  observed = newest (rec.observed ++ whole_seconds (sub now rec.current_registration) ∷ []);
  last_observed_loss = now;
}

save-Records :
    (written : Option Text) (now : Time) (file : RecordFile) (rec : LifetimeRecord)
    → load file ≡ (rec, none)
    → rec.current_registration ≢ zero_time
    → pos 0 <ℤ sub now rec.current_registration
    → Records written now file
        ((save written (aged now rec) file).0, aged now rec, (save written (aged now rec) file).1)
unfolding save
save-Records (some e) now file rec loaded birth late = inl (refl, unwritten e refl refl)
save-Records none now file rec loaded birth late = inr (record {
  readable = ap (λ p. p.1) loaded;
  born = rw loaded birth;
  is_written = refl;
  no_error = refl;
  recorded = rw loaded (record {
    window = newest (rec.observed ++ whole_seconds (sub now rec.current_registration) ∷ []);
    file_is = refl;
    window_is = newest-snoc rec.observed (whole_seconds (sub now rec.current_registration));
    bounded = newest-bounded _;
    born_before = late;
  });
})

record_age_cases :
    (written : Option Text) (now : Time) (file : RecordFile) (rec : LifetimeRecord)
    → load file ≡ (rec, none)
    → rec.current_registration ≢ zero_time
    → Records written now file
        (record_age written now file rec (some (sub now rec.current_registration)))
unfolding record_age
record_age_cases written now file rec loaded birth =
    elim (Bool-cases (leb_ℤ (sub now rec.current_registration) (pos 0))) [
      | inl early ↦ rw early (inl (refl, not_older (rw loaded (ground arith)) refl))
      | inr late ↦ rw late (save-Records written now file rec loaded birth (ground arith))
    ]

record_loss_cases :
    (written : Option Text) (now : Time) (file : RecordFile) (loaded : LifetimeRecord × Option Text)
    → load file ≡ loaded
    → Records written now file (record_loss written now file loaded)
unfolding record_loss registration_age
record_loss_cases written now file (rec, some e) loaded =
    inl (refl, unread e (ap (λ p. p.1) loaded) refl)
record_loss_cases written now file (rec, none) loaded =
    elim (Bool-cases (is_zero rec.current_registration)) [
      | inl zero_birth ↦ rw zero_birth (
          unfold record_age in
          inl
            (refl, unborn (ap (λ p. p.0.current_registration) loaded ∙ zero_of _ zero_birth) refl))
      | inr known ↦ rw known (record_age_cases written now file rec loaded (not_zero_of _ known))
    ]

-- Whatever the file holds and whether or not the write succeeds: RecordObservedLoss leaves the file as
-- it is, and then the file could not be read, which is its error, or no birth is on file or one that is
-- not before `now`, without an error, or the write failed, which is its error; or the file was read, the
-- birth on file is known and before `now`, the write succeeded, and the file holds that record with
-- its age in whole seconds added behind the older values, of which the newest 20 in all are kept.
pub record_observed_loss_cases :
    (written : Option Text) (now : Time) (file : RecordFile)
    → Records written now file (record_observed_loss written now file)
unfolding record_observed_loss
record_observed_loss_cases written now file = record_loss_cases written now file (load file) refl

-- A loss at or before the birth on file records nothing, so a registration that was never seen
-- alive adds no lifetime.
record_observed_loss_early :
    (written : Option Text) (now : Time) (file : RecordFile)
    → now ≤ℤ (load file).0.current_registration
    → (record_observed_loss written now file).0 ≡ file
record_observed_loss_early written now file h = elim (record_observed_loss_cases written now file) [
  | inl (same, why) ↦ same
  | inr r ↦
      absurd
        (omega (arith, r.recorded.born_before, sub-nonpos now (load file).0.current_registration h))
]

-- The file after a birth that was written.
new_registration_lem :
    (now : Time) (file : RecordFile) (rec : LifetimeRecord)
    → load file ≡ (rec, none)
    → (record_new_registration none now file).0
      ≡ holds (record rec { version = record_version; current_registration = now })
unfolding record_new_registration
new_registration_lem now file rec readable =
    ap (λ (p : LifetimeRecord × Option Text). (record_birth none now file p).0) readable

loss_lem :
    (now : Time) (rec : LifetimeRecord)
    → is_zero rec.version ≡ false
    → is_zero rec.current_registration ≡ false
    → leb_ℤ (sub now rec.current_registration) (pos 0) ≡ false
    → (load (record_observed_loss none now (holds rec)).0).0.observed
      ≡ newest (rec.observed ++ whole_seconds (sub now rec.current_registration) ∷ [])
unfolding record_observed_loss
loss_lem now rec v z l = ground arith

-- A registration born at `birth` whose loss is noted at `lost`, less than 2^53 ns (104 days) later,
-- with both writes succeeding and a file that can be read: what is then loaded holds the age in
-- whole seconds behind the lifetimes that were on file, of which the oldest are dropped beyond 20 in
-- all.
pub birth_then_loss :
    (birth : ℕ) (age : ℕ) (file : RecordFile) (rec : LifetimeRecord)
    → load file ≡ (rec, none)
    → 0 < birth
    → 0 < age
    → age < two_53
    → (load
        (record_observed_loss none
          (pos (birth + age))
          (record_new_registration none (pos birth) file).0).0).0.observed
      ≡ drop (length rec.observed + 1 - 20) (rec.observed ++ pos (age / 1000000000) ∷ [])
birth_then_loss birth age file rec readable b p long =
    let since = sub-add birth age (omega arith) in
    rw (new_registration_lem (pos birth) file rec readable) (
      loss_lem (pos (birth + age))
        (record rec { version = record_version; current_registration = pos birth }) refl
        (ground arith) (rw since (ground arith))
      ∙ rw (since, whole_seconds-eq-div age long)
          (newest-snoc rec.observed (pos (age / 1000000000))))
