-- ===== src/Lifetime.antt =====
-- pia/lifetime.go: what is learned about how long a registration lives, the file that keeps it,
-- and the refresh cadence that follows; and RegistrationAge of pia/health.go.
-- The file is what os.ReadFile and json.Unmarshal make of it. Times and int64 counts come through
-- JSON unchanged. A write is atomic (atomicWriteState): when it fails, for any reason, the old
-- file is still there. The result of each write is an argument.
pub mod Cadence
pub mod Losses
use mathlib.Core.Option
use pia_wg_config_generator.Base.{
  ℕ, ◌+◌, ◌-◌, ◌*◌, Bool, true, false, not, ◌&&◌, ◌||◌, Option, none, some, List, [], ◌∷◌, ◌++◌,
  ltb, length, drop, if◌then◌else◌,
}
use pia_wg_config_generator.Base.Int.{ℤ, pos, ltb_ℤ, leb_ℤ}
use pia_wg_config_generator.Base.Text.{Text}
use pia_wg_config_generator.Clock.{
  Time, Duration, zero_time, is_zero, add, sub, second_ns, seconds, times,
}
use pia_wg_config_generator.Clock.Float.{half, whole_seconds}

pub record LifetimeRecord : Type 0 where
  pub version : ℤ  -- int
  pub current_registration : Time
  pub observed : List ℤ  -- int64 seconds, newest last
  pub last_observed_loss : Time

abbrev pub record_version : ℤ
record_version = pos 1

abbrev pub max_observed : ℕ
max_observed = 20

-- 30 * time.Minute
abbrev pub min_refresh : Duration
min_refresh = seconds 1800

-- The file registration_lifetime.json.
pub data RecordFile : Type 0 where
  missing : RecordFile
  unreadable : Text → RecordFile
  corrupt : RecordFile
  holds : LifetimeRecord → RecordFile

-- The zero value of the struct.
abbrev pub empty_record : LifetimeRecord
empty_record = record {
  version = pos 0;
  current_registration = zero_time;
  observed = [];
  last_observed_loss = zero_time;
}

abbrev pub fresh_record : LifetimeRecord
fresh_record = record empty_record { version = record_version }

-- Load: the record, and the error if there is one.
unfoldable pub load : RecordFile → LifetimeRecord × Option Text
load missing = (fresh_record, none)
load (unreadable e) = (empty_record, some e)
load corrupt = (fresh_record, none)
load (holds rec) =
    ((if is_zero rec.version then record rec { version = record_version } else rec), none)

-- Save, with the error of the write if it fails.
unfoldable pub save : Option Text → LifetimeRecord → RecordFile → RecordFile × Option Text
save none rec file = (holds (record rec { version = record_version }), none)
save (some e) rec file = (file, some e)

-- Save at the end of a method, which returns the record with the error of the write.
abbrev save_and_return :
    Option Text → LifetimeRecord → RecordFile → RecordFile × LifetimeRecord × Option Text
save_and_return written rec file = let (file', err) = save written rec file in (file', rec, err)

record_birth :
    Option Text
    → Time
    → RecordFile
    → LifetimeRecord × Option Text
    → RecordFile × LifetimeRecord × Option Text
record_birth written now file (rec, some e) = (file, rec, some e)
record_birth written now file (rec, none) =
    save_and_return written (record rec { current_registration = now }) file

-- RecordNewRegistration
unfoldable pub record_new_registration :
    Option Text → Time → RecordFile → RecordFile × LifetimeRecord × Option Text
unfolding load save record_birth
record_new_registration written now file = record_birth written now file (load file)

-- RegistrationAge
unfoldable pub registration_age : Time → Time → Option Duration
registration_age birth now = if is_zero birth then none else some (sub now birth)

-- The window of the newest `max_observed` values.
unfoldable pub newest : List ℤ → List ℤ
newest xs = if ltb max_observed (length xs) then drop (length xs - max_observed) xs else xs

record_age :
    Option Text
    → Time
    → RecordFile
    → LifetimeRecord
    → Option Duration
    → RecordFile × LifetimeRecord × Option Text
record_age written now file rec none = (file, rec, none)
record_age written now file rec (some age) =
    if leb_ℤ age (pos 0)
    then (file, rec, none)
    else save_and_return written
        (record rec {
          observed = newest (rec.observed ++ whole_seconds age ∷ []);
          last_observed_loss = now;
        })
        file

record_loss :
    Option Text
    → Time
    → RecordFile
    → LifetimeRecord × Option Text
    → RecordFile × LifetimeRecord × Option Text
record_loss written now file (rec, some e) = (file, rec, some e)
record_loss written now file (rec, none) =
    record_age written now file rec (registration_age rec.current_registration now)

-- RecordObservedLoss
unfoldable pub record_observed_loss :
    Option Text → Time → RecordFile → RecordFile × LifetimeRecord × Option Text
unfolding load save registration_age record_age record_loss
record_observed_loss written now file = record_loss written now file (load file)

-- sort.Slice with `<`
insert_sorted : ℤ → List ℤ → List ℤ
insert_sorted x [] = x ∷ []
insert_sorted x (y ∷ ys) = if ltb_ℤ y x then y ∷ insert_sorted x ys else x ∷ y ∷ ys

sort : List ℤ → List ℤ
unfolding insert_sorted
sort [] = []
sort (x ∷ xs) = insert_sorted x (sort xs)

first_seconds : List ℤ → Option Duration
first_seconds [] = none
first_seconds (x ∷ xs) = some (times x second_ns)

-- MeasuredLifetime
unfoldable pub measured_lifetime : LifetimeRecord → Option Duration
unfolding sort first_seconds
measured_lifetime r = first_seconds (sort r.observed)

-- The label of an estimate; `unknown` is the empty string.
pub data Source : Type 0 where
  unknown measured fallback_plan : Source

-- The life that ExpectedExpiry plans with while none has been measured.
planned_life : Duration → Duration → Duration
planned_life fallback user_max_age =
    if ltb_ℤ (pos 0) user_max_age && (leb_ℤ fallback (pos 0) || ltb_ℤ user_max_age fallback)
    then user_max_age
    else fallback

expiry_after : Time → Duration → Time × Source
expiry_after birth life =
    if leb_ℤ life (pos 0) then (zero_time, unknown) else (add birth life, fallback_plan)

expiry_of : Time → Duration → Duration → Option Duration → Time × Source
expiry_of birth fallback user_max_age (some life) = (add birth life, measured)
expiry_of birth fallback user_max_age none = expiry_after birth (planned_life fallback user_max_age)

-- ExpectedExpiry
unfoldable pub expected_expiry : LifetimeRecord → Duration → Duration → Time × Source
unfolding planned_life expiry_after expiry_of
expected_expiry r fallback user_max_age =
    if is_zero r.current_registration
    then (zero_time, unknown)
    else expiry_of r.current_registration fallback user_max_age (measured_lifetime r)

-- ExpectedExpiryUTC
unfoldable pub expected_expiry_utc : LifetimeRecord → Option Time
expected_expiry_utc r =
    if is_zero r.current_registration
    then none
    else Option.map (add r.current_registration) (measured_lifetime r)

-- Half of a lifetime, and 30 minutes at least.
unfoldable pub safe_half : Duration → Duration
safe_half life = if ltb_ℤ (half life) min_refresh then min_refresh else half life

measured_interval : Duration → Option Duration → Duration
measured_interval configured none = configured
measured_interval configured (some life) = safe_half life

-- SafeRefreshInterval
unfoldable pub safe_refresh_interval : LifetimeRecord → Duration → Duration → Duration
unfolding measured_interval
safe_refresh_interval r configured user_max_age =
    let base = measured_interval configured (measured_lifetime r) in
    let cap = safe_half user_max_age in
    let capped = if ltb_ℤ (pos 0) user_max_age && ltb_ℤ cap base then cap else base in
    if ltb_ℤ capped min_refresh then min_refresh else capped
