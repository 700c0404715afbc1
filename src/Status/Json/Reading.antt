-- ===== src/Status/Json/Reading.antt =====
-- What is read of status.json is what was written (main.go, daemonStatus.MarshalJSON).
use pia_wg_config_generator.Base.{
  zero, suc, Bool, true, false, Option, none, some, [], ◌∷◌, ◌≡◌, refl, if◌then◌else◌,
}
use pia_wg_config_generator.Base.Int.{ℤ, pos, negsuc}
use pia_wg_config_generator.Base.Text.{Text, codes, text_eq}
use pia_wg_config_generator.Clock.{Time, is_zero}
use pia_wg_config_generator.Status.{DaemonStatus}
use pia_wg_config_generator.Status.Json.{
  time, Object, string_or_none, number_or_none, boolean_or_none, alias_fields, has_key,
  drop_zero_time, drop_zero_times, delete, omittable, without_age, marshal_json, value_of, text_of,
  int_of, bool_of, pointer_of, time_of, unmarshal_json,
}

text_back : (t : Text) → text_of (string_or_none t) ≡ t
unfolding text_of string_or_none
text_back [] = refl
text_back (c ∷ t) = refl

int_back : (n : ℤ) → int_of (number_or_none n) ≡ n
unfolding int_of number_or_none
int_back (pos zero) = refl
int_back (pos (suc n)) = refl
int_back (negsuc n) = refl

pointer_back : (p : Option Bool) → pointer_of (boolean_or_none p) ≡ p
unfolding pointer_of boolean_or_none
pointer_back none = refl
pointer_back (some b) = refl

time_back : (t : Time) → time_of (drop_zero_time (some (time t))) ≡ t
unfolding time_of drop_zero_time
time_back (pos zero) = refl
time_back (pos (suc n)) = refl
time_back (negsuc n) = refl

-- The fields that are left behind the loop, in either mode.
abbrev fields_of : Bool → DaemonStatus → Object
fields_of refresh s = drop_zero_times (omittable refresh) (alias_fields s)

unmarshal_json-fields :
    (refresh : Bool) (s : DaemonStatus) → unmarshal_json (fields_of refresh s) ≡ s
unfolding unmarshal_json drop_zero_times alias_fields value_of text_of int_of bool_of pointer_of
    time_of string_or_none number_or_none boolean_or_none drop_zero_time has_key text_eq
unmarshal_json-fields true s = λ i. record {
  region = s.region;
  mode = text_back s.mode i;
  last_generate_utc = time_back s.last_generate_utc i;
  last_forward_port = text_back s.last_forward_port i;
  last_error = text_back s.last_error i;
  next_refresh_utc = time_back s.next_refresh_utc i;
  port_forwarding = s.port_forwarding;
  server_name_enabled = s.server_name_enabled;
  ipv6_mode = s.ipv6_mode;
  registration_utc = time_back s.registration_utc i;
  registration_age_secs = s.registration_age_secs;
  expected_expiry_utc = time_back s.expected_expiry_utc i;
  lifetime_source = text_back s.lifetime_source i;
  measured_lifetime_secs = int_back s.measured_lifetime_secs i;
  tunnel_healthy = s.tunnel_healthy;
  control_status = text_back s.control_status i;
  public_ip_present = pointer_back s.public_ip_present i;
  last_health_check_utc = time_back s.last_health_check_utc i;
  last_healthy_utc = time_back s.last_healthy_utc i;
  unhealthy_since_utc = time_back s.unhealthy_since_utc i;
  last_recovery_utc = time_back s.last_recovery_utc i;
  recovery_count = int_back s.recovery_count i;
  failed_attempts = int_back s.failed_attempts i;
}
unmarshal_json-fields false s = λ i. record {
  region = s.region;
  mode = text_back s.mode i;
  last_generate_utc = s.last_generate_utc;
  last_forward_port = text_back s.last_forward_port i;
  last_error = text_back s.last_error i;
  next_refresh_utc = s.next_refresh_utc;
  port_forwarding = s.port_forwarding;
  server_name_enabled = s.server_name_enabled;
  ipv6_mode = s.ipv6_mode;
  registration_utc = time_back s.registration_utc i;
  registration_age_secs = s.registration_age_secs;
  expected_expiry_utc = time_back s.expected_expiry_utc i;
  lifetime_source = text_back s.lifetime_source i;
  measured_lifetime_secs = int_back s.measured_lifetime_secs i;
  tunnel_healthy = s.tunnel_healthy;
  control_status = text_back s.control_status i;
  public_ip_present = pointer_back s.public_ip_present i;
  last_health_check_utc = time_back s.last_health_check_utc i;
  last_healthy_utc = time_back s.last_healthy_utc i;
  unhealthy_since_utc = time_back s.unhealthy_since_utc i;
  last_recovery_utc = time_back s.last_recovery_utc i;
  recovery_count = int_back s.recovery_count i;
  failed_attempts = int_back s.failed_attempts i;
}

unmarshal_json-delete :
    (refresh : Bool) (s : DaemonStatus)
    → unmarshal_json (delete (codes "registration_age_seconds") (fields_of refresh s))
      ≡ record s { registration_age_secs = pos 0 }
unfolding unmarshal_json drop_zero_times alias_fields value_of text_of int_of bool_of pointer_of
    time_of string_or_none number_or_none boolean_or_none drop_zero_time has_key text_eq delete
unmarshal_json-delete true s = λ i. record {
  region = s.region;
  mode = text_back s.mode i;
  last_generate_utc = time_back s.last_generate_utc i;
  last_forward_port = text_back s.last_forward_port i;
  last_error = text_back s.last_error i;
  next_refresh_utc = time_back s.next_refresh_utc i;
  port_forwarding = s.port_forwarding;
  server_name_enabled = s.server_name_enabled;
  ipv6_mode = s.ipv6_mode;
  registration_utc = time_back s.registration_utc i;
  registration_age_secs = pos 0;
  expected_expiry_utc = time_back s.expected_expiry_utc i;
  lifetime_source = text_back s.lifetime_source i;
  measured_lifetime_secs = int_back s.measured_lifetime_secs i;
  tunnel_healthy = s.tunnel_healthy;
  control_status = text_back s.control_status i;
  public_ip_present = pointer_back s.public_ip_present i;
  last_health_check_utc = time_back s.last_health_check_utc i;
  last_healthy_utc = time_back s.last_healthy_utc i;
  unhealthy_since_utc = time_back s.unhealthy_since_utc i;
  last_recovery_utc = time_back s.last_recovery_utc i;
  recovery_count = int_back s.recovery_count i;
  failed_attempts = int_back s.failed_attempts i;
}
unmarshal_json-delete false s = λ i. record {
  region = s.region;
  mode = text_back s.mode i;
  last_generate_utc = s.last_generate_utc;
  last_forward_port = text_back s.last_forward_port i;
  last_error = text_back s.last_error i;
  next_refresh_utc = s.next_refresh_utc;
  port_forwarding = s.port_forwarding;
  server_name_enabled = s.server_name_enabled;
  ipv6_mode = s.ipv6_mode;
  registration_utc = time_back s.registration_utc i;
  registration_age_secs = pos 0;
  expected_expiry_utc = time_back s.expected_expiry_utc i;
  lifetime_source = text_back s.lifetime_source i;
  measured_lifetime_secs = int_back s.measured_lifetime_secs i;
  tunnel_healthy = s.tunnel_healthy;
  control_status = text_back s.control_status i;
  public_ip_present = pointer_back s.public_ip_present i;
  last_health_check_utc = time_back s.last_health_check_utc i;
  last_healthy_utc = time_back s.last_healthy_utc i;
  unhealthy_since_utc = time_back s.unhealthy_since_utc i;
  last_recovery_utc = time_back s.last_recovery_utc i;
  recovery_count = int_back s.recovery_count i;
  failed_attempts = int_back s.failed_attempts i;
}

-- In either mode the status that is read of status.json is the one that was written, but for the age
-- of a registration that is not known, which is read as 0.
pub unmarshal_json-marshal_json :
    (s : DaemonStatus)
    → unmarshal_json (marshal_json s) ≡ record s {
      registration_age_secs = if is_zero s.registration_utc then pos 0 else s.registration_age_secs;
    }
unfolding marshal_json without_age
unmarshal_json-marshal_json s = by_birth (is_zero s.registration_utc)
  where
    by_birth :
        (unborn : Bool)
        → unmarshal_json (without_age unborn (fields_of (text_eq s.mode (codes "refresh")) s))
          ≡ record s { registration_age_secs = if unborn then pos 0 else s.registration_age_secs }
    by_birth true = unmarshal_json-delete (text_eq s.mode (codes "refresh")) s
    by_birth false = unmarshal_json-fields (text_eq s.mode (codes "refresh")) s
