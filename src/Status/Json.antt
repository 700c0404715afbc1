-- ===== src/Status/Json.antt =====
-- The JSON of status.json (main.go, daemonStatus.MarshalJSON), and what json.Unmarshal reads of it.
pub mod Reading
use pia_wg_config_generator.Base.{
  ℕ, zero, suc, Bool, true, false, ◌||◌, Option, none, some, List, [], ◌∷◌, ◌++◌, if◌then◌else◌,
}
use pia_wg_config_generator.Base.Int.{ℤ, pos, negsuc}
use pia_wg_config_generator.Base.Text.{Text, codes, text_eq, is_empty}
use pia_wg_config_generator.Clock.{Time, is_zero, zero_time}
use pia_wg_config_generator.Status.{DaemonStatus}

-- A value of the object. A time stands for its text in RFC 3339, which is that of year 1 just for the
-- zero time.
pub data Json : Type 0 where
  string : Text → Json
  number : ℤ → Json
  boolean : Bool → Json
  time : Time → Json

-- The object: the keys of daemonStatus, each once, with its value, or `none` if it is left out.
abbrev pub Object : Type 0
Object = List (Text × Option Json)

-- `omitempty` of a string, of an integer, and of a pointer.
string_or_none : Text → Option Json
string_or_none t = if is_empty t then none else some (string t)

number_or_none : ℤ → Option Json
number_or_none n = if is_zero n then none else some (number n)

boolean_or_none : Option Bool → Option Json
boolean_or_none none = none
boolean_or_none (some b) = some (boolean b)

-- What json.Marshal makes of the fields. Its omitempty leaves no time out.
unfoldable pub alias_fields : DaemonStatus → Object
unfolding string_or_none number_or_none boolean_or_none
alias_fields s =
    (codes "region", some (string s.region))
    ∷ (codes "mode", string_or_none s.mode)
    ∷ (codes "last_generate_utc", some (time s.last_generate_utc))
    ∷ (codes "last_forward_port", string_or_none s.last_forward_port)
    ∷ (codes "last_error", string_or_none s.last_error)
    ∷ (codes "next_refresh_utc", some (time s.next_refresh_utc))
    ∷ (codes "port_forwarding", some (boolean s.port_forwarding))
    ∷ (codes "server_name_enabled", some (boolean s.server_name_enabled))
    ∷ (codes "ipv6_mode", some (string s.ipv6_mode))
    ∷ (codes "registration_utc", some (time s.registration_utc))
    ∷ (codes "registration_age_seconds", some (number s.registration_age_secs))
    ∷ (codes "expected_expiry_utc", some (time s.expected_expiry_utc))
    ∷ (codes "lifetime_source", string_or_none s.lifetime_source)
    ∷ (codes "measured_lifetime_seconds", number_or_none s.measured_lifetime_secs)
    ∷ (codes "tunnel_healthy", some (boolean s.tunnel_healthy))
    ∷ (codes "control_status", string_or_none s.control_status)
    ∷ (codes "public_ip_present", boolean_or_none s.public_ip_present)
    ∷ (codes "last_health_check_utc", some (time s.last_health_check_utc))
    ∷ (codes "last_healthy_utc", some (time s.last_healthy_utc))
    ∷ (codes "unhealthy_since_utc", some (time s.unhealthy_since_utc))
    ∷ (codes "last_recovery_utc", some (time s.last_recovery_utc))
    ∷ (codes "recovery_count", number_or_none s.recovery_count)
    ∷ (codes "consecutive_failed_attempts", number_or_none s.failed_attempts)
    ∷ []

has_key : Text → List Text → Bool
has_key key [] = false
has_key key (k ∷ keys) = text_eq key k || has_key key keys

-- `delete` of a value that is the zero time.
drop_zero_time : Option Json → Option Json
drop_zero_time (some (time t)) = if is_zero t then none else some (time t)
drop_zero_time v = v

-- The loop over the omittable keys.
unfoldable pub drop_zero_times : List Text → Object → Object
unfolding has_key drop_zero_time
drop_zero_times keys [] = []
drop_zero_times keys ((key, v) ∷ rest) =
    (key, (if has_key key keys then drop_zero_time v else v)) ∷ drop_zero_times keys rest

unfoldable pub delete : Text → Object → Object
delete key [] = []
delete key ((k, v) ∷ rest) = (k, (if text_eq k key then none else v)) ∷ delete key rest

-- The omittable keys, in refresh mode and in the other one.
abbrev pub omittable : Bool → List Text
omittable refresh =
    codes "registration_utc"
    ∷ codes "expected_expiry_utc"
    ∷ codes "last_health_check_utc"
    ∷ codes "last_healthy_utc"
    ∷ codes "unhealthy_since_utc"
    ∷ codes "last_recovery_utc"
    ∷ (if refresh then codes "last_generate_utc" ∷ codes "next_refresh_utc" ∷ [] else [])

without_age : Bool → Object → Object
without_age true o = delete (codes "registration_age_seconds") o
without_age false o = o

-- MarshalJSON
unfoldable pub marshal_json : DaemonStatus → Object
unfolding without_age
marshal_json s =
    without_age (is_zero s.registration_utc)
      (drop_zero_times (omittable (text_eq s.mode (codes "refresh"))) (alias_fields s))

-- A key of an object, for json.Unmarshal.
unfoldable pub value_of : Text → Object → Option Json
value_of key [] = none
value_of key ((k, v) ∷ rest) = let later = value_of key rest in if text_eq k key then v else later

-- What a field becomes: its zero value if the key is not there.
text_of : Option Json → Text
text_of (some (string t)) = t
text_of _ = []

int_of : Option Json → ℤ
int_of (some (number n)) = n
int_of _ = pos 0

bool_of : Option Json → Bool
bool_of (some (boolean b)) = b
bool_of _ = false

pointer_of : Option Json → Option Bool
pointer_of (some (boolean b)) = some b
pointer_of _ = none

time_of : Option Json → Time
time_of (some (time t)) = t
time_of _ = zero_time

-- json.Unmarshal of the object into a daemonStatus.
unfoldable pub unmarshal_json : Object → DaemonStatus
unfolding text_of int_of bool_of pointer_of time_of
unmarshal_json o = record {
  region = text_of (value_of (codes "region") o);
  mode = text_of (value_of (codes "mode") o);
  last_generate_utc = time_of (value_of (codes "last_generate_utc") o);
  last_forward_port = text_of (value_of (codes "last_forward_port") o);
  last_error = text_of (value_of (codes "last_error") o);
  next_refresh_utc = time_of (value_of (codes "next_refresh_utc") o);
  port_forwarding = bool_of (value_of (codes "port_forwarding") o);
  server_name_enabled = bool_of (value_of (codes "server_name_enabled") o);
  ipv6_mode = text_of (value_of (codes "ipv6_mode") o);
  registration_utc = time_of (value_of (codes "registration_utc") o);
  registration_age_secs = int_of (value_of (codes "registration_age_seconds") o);
  expected_expiry_utc = time_of (value_of (codes "expected_expiry_utc") o);
  lifetime_source = text_of (value_of (codes "lifetime_source") o);
  measured_lifetime_secs = int_of (value_of (codes "measured_lifetime_seconds") o);
  tunnel_healthy = bool_of (value_of (codes "tunnel_healthy") o);
  control_status = text_of (value_of (codes "control_status") o);
  public_ip_present = pointer_of (value_of (codes "public_ip_present") o);
  last_health_check_utc = time_of (value_of (codes "last_health_check_utc") o);
  last_healthy_utc = time_of (value_of (codes "last_healthy_utc") o);
  unhealthy_since_utc = time_of (value_of (codes "unhealthy_since_utc") o);
  last_recovery_utc = time_of (value_of (codes "last_recovery_utc") o);
  recovery_count = int_of (value_of (codes "recovery_count") o);
  failed_attempts = int_of (value_of (codes "consecutive_failed_attempts") o);
}
