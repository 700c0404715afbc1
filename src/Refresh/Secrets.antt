-- ===== src/Refresh/Secrets.antt =====
-- What the refresh daemon redacts (refresh.go: secrets, redact, and the texts of its errors). The
-- engine of package regexp and the quoting of %q are arguments.
use pia_wg_config_generator.Base.{
  ℕ, false, not, List, [], ◌∷◌, ◌++◌, ◌≡◌, ◌⊎◌, ◌≤◌, inl, inr, sym, length, All, Bool-cases,
  Option-cases,
}
use pia_wg_config_generator.Base.Text.{Text, codes, trim_space, contains, is_empty}
use pia_wg_config_generator.Api.Requests.{Account}
use pia_wg_config_generator.Redact.{Regexp, templates, re_long_blob, redacted_placeholder, redact}
use pia_wg_config_generator.Redact.Known.{KeepsApart, IsSecret, contains_empty, redact_gone}
use pia_wg_config_generator.Status.{DaemonStatus}
use pia_wg_config_generator.Tunnel.{
  TunnelState, TunnelError, empty_url, no_public_ip, no_usable_status, not_running,
}
use pia_wg_config_generator.Refresh.{
  Settings, Env, Runtime, Error, Effect, config_generation, config_write, pending_write,
  gluetun_restart, exhausted, tunnel, registered, wrote_config, wrote_pending, ran_config_hook,
  asked_restart, wrote_status, alerted, slept, failure_event, recovered_event,
}
use pia_wg_config_generator.Refresh.Outcome.{fold_sample, health_error_after, ineffective_cause}
use pia_wg_config_generator.Refresh.Loop.{Tick, run_refresh}
use pia_wg_config_generator.Refresh.Restarts.{IsInitial}
use pia_wg_config_generator.Refresh.Views.{View, view, IsSilent, Shows, IsTracked}
use pia_wg_config_generator.Refresh.Views.Runs.{run_refresh-Tracked}

-- secrets
abbrev pub secrets : Account → List Text
secrets a = a.username ∷ a.password ∷ []

unfoldable pub tunnel_error_text : (Text → Text) → TunnelError → Text
tunnel_error_text quote empty_url = codes "gluetun control server URL is empty"
tunnel_error_text quote no_public_ip =
    codes
      "gluetun reports VPN status \"running\" but has no public IP (tunnel is not passing traffic)"
tunnel_error_text quote no_usable_status =
    codes
      "gluetun control server did not return a usable VPN status on /v1/vpn/status or /v1/openvpn/status"
tunnel_error_text quote (not_running status) = codes "gluetun reports VPN status " ++ quote status

-- err.Error()
unfoldable pub error_text : (Text → Text) → Error → Text
error_text quote (config_generation e) = codes "config generation: " ++ e
error_text quote (config_write e) = codes "config write: " ++ e
error_text quote (pending_write e) = codes "pending PF write: " ++ e
error_text quote (gluetun_restart e) = codes "gluetun restart: " ++ e
error_text quote (exhausted e) =
    codes "regeneration failed after 6 attempts: " ++ error_text quote e
error_text quote (tunnel e) = tunnel_error_text quote e

-- redact, of the text of an error
unfoldable pub redact_error : Regexp → (Text → Text) → Account → Error → Text
redact_error re quote a e = redact re (error_text quote e) (secrets a)

-- A world in which the daemon redacts with the account's secrets.
abbrev pub redacting : Regexp → (Text → Text) → Account → Env → Env
redacting re quote a env = record env { redacted = redact_error re quote a }

-- Whether an effect that shows an error, the write of status.json or an alert, does so without the
-- text `k`; the cause of an alert may be the fixed one of a recovery that did not help.
abbrev pub Hides : Text → Effect → Type 0
Hides k (wrote_status st) = contains st.last_error k ≡ false
Hides k (alerted (failure_event n region cause)) =
    (cause ≡ ineffective_cause) ⊎ (contains cause k ≡ false)
Hides k _ = Unit

record HidesAll (k : Text) (v : View) : Type 0 where
  regen_error : contains v.regen_error k ≡ false
  health_error : contains v.health_error k ≡ false
  log : All (Hides k) v.log

silent-Hides : (k : Text) (e : Effect) → IsSilent e → Hides k e
silent-Hides k (registered gen) h = tt
silent-Hides k (wrote_config text) h = tt
silent-Hides k (wrote_pending t key) h = absurd h
silent-Hides k (ran_config_hook cmd) h = tt
silent-Hides k (asked_restart name) h = tt
silent-Hides k (wrote_status st) h = absurd h
silent-Hides k (alerted (failure_event n region cause)) h = absurd h
silent-Hides k (alerted (recovered_event d n)) h = tt
silent-Hides k (slept d) h = tt

shown-Hides :
    (k : Text) (v : View) (st : DaemonStatus)
    → Shows v st
    → HidesAll k v
    → contains st.last_error k ≡ false
shown-Hides k v st shows h = elim (Bool-cases (not (is_empty v.regen_error))) [
  | inl failed ↦ rw (shows.last_error, failed) h.regen_error
  | inr fine ↦ rw (shows.last_error, fine) h.health_error
]

module _ (env : Env) (k : Text) (gone : (e : Error) → contains (env.redacted e) k ≡ false)
    (nothing : contains [] k ≡ false) where
  sampled-HidesAll :
      (st : TunnelState) (n : ℕ) (s : Runtime)
      → HidesAll k (view s)
      → HidesAll k (view (fold_sample env st (env.now n) s))
  unfolding fold_sample health_error_after
  sampled-HidesAll st n s h = elim (Bool-cases st.healthy) [
    | inl well ↦
        rw well (record { regen_error = h.regen_error; health_error = nothing; log = h.log })
    | inr ill ↦ elim (Option-cases st.err) [
      | inl no_error ↦
          rw (ill, no_error)
            (record { regen_error = h.regen_error; health_error = h.health_error; log = h.log })
      | inr (e, failed) ↦
          rw (ill, failed)
            (record { regen_error = h.regen_error; health_error = gone (tunnel e); log = h.log })
    ]
  ]

  HidesAll-Tracked : IsTracked env (HidesAll k)
  HidesAll-Tracked = record {
    called =
        λ v h. record { regen_error = h.regen_error; health_error = h.health_error; log = h.log };
    pending = λ v gen made h. record {
      regen_error = h.regen_error;
      health_error = h.health_error;
      log = (tt, h.log);
    };
    silent = λ v e quiet h. record {
      regen_error = h.regen_error;
      health_error = h.health_error;
      log = (silent-Hides k e quiet, h.log);
    };
    status = λ v st shows h. record {
      regen_error = h.regen_error;
      health_error = h.health_error;
      log = (shown-Hides k v st shows h, h.log);
    };
    alert = λ v n region cause known h. record {
      regen_error = h.regen_error;
      health_error = h.health_error;
      log = (cause_hides cause known, h.log);
    };
    no_error = λ v h. record { regen_error = nothing; health_error = h.health_error; log = h.log };
    some_error =
        λ v e h. record { regen_error = gone e; health_error = h.health_error; log = h.log };
    sample = sampled-HidesAll;
  }
    where
      cause_hides :
          (cause : Text)
          → (cause ≡ ineffective_cause) ⊎ ((e : Error) × (cause ≡ env.redacted e))
          → (cause ≡ ineffective_cause) ⊎ (contains cause k ≡ false)
      cause_hides cause (inl fixed) = inl fixed
      cause_hides cause (inr (e, same)) = inr (rw same (gone e))

secret_gone :
    (re : Regexp) (a : Account) (k s : Text)
    → (k ≡ a.username) ⊎ (k ≡ a.password)
    → (cuts : All (λ t. KeepsApart (λ u. re.replace_all_string t.0 u t.1)) templates)
    → (cuts_func : (f : Text → Text)
        → ((m : Text) → (f m ≡ m) ⊎ (f m ≡ redacted_placeholder))
        → KeepsApart (λ u. re.replace_all_string_func re_long_blob u f))
    → 4 ≤ length (trim_space k)
    → IsSecret k
    → contains (redact re s (secrets a)) (trim_space k) ≡ false
secret_gone re a k s (inl user) cuts cuts_func long secret =
    rw (sym user) (redact_gone re s [] (a.password ∷ []) k cuts cuts_func long secret)
secret_gone re a k s (inr pass) cuts cuts_func long secret =
    rw (sym pass) (redact_gone re s (a.username ∷ []) [] k cuts cuts_func long secret)

-- In every run of the refresh daemon from its start, in any world and for any order of ticks, no
-- status.json that it writes names the username or the password of the account in its last error,
-- and no failure alert in its cause, unless that is the fixed text on a recovery that did not help.
-- Conditions: the value has four bytes or more without blanks around it, the placeholder can stand
-- for it, and the engine of package regexp brings nothing together that was apart.
pub run_refresh-Hides :
    (re : Regexp) (quote : Text → Text) (a : Account) (env : Env) (cfg : Settings) (s : Runtime)
    (ts : List Tick) (k : Text)
    → IsInitial s
    → s.regen_error ≡ []
    → s.health_error ≡ []
    → (k ≡ a.username) ⊎ (k ≡ a.password)
    → (cuts : All (λ t. KeepsApart (λ u. re.replace_all_string t.0 u t.1)) templates)
    → (cuts_func : (f : Text → Text)
        → ((m : Text) → (f m ≡ m) ⊎ (f m ≡ redacted_placeholder))
        → KeepsApart (λ u. re.replace_all_string_func re_long_blob u f))
    → 4 ≤ length (trim_space k)
    → IsSecret k
    → All (Hides (trim_space k)) (run_refresh (redacting re quote a env) cfg s ts).runtime.log
unfolding redact_error
run_refresh-Hides re quote a env cfg s ts k start no_regen no_health which cuts cuts_func long
      secret =
    let nothing = contains_empty (trim_space k) long in
    (run_refresh-Tracked (redacting re quote a env) cfg (HidesAll (trim_space k))
      (HidesAll-Tracked (redacting re quote a env) (trim_space k)
        (λ e. secret_gone re a k (error_text quote e) which cuts cuts_func long secret) nothing)
      s ts
      (record {
        regen_error = rw no_regen nothing;
        health_error = rw no_health nothing;
        log = rw start.0 tt;
      })).log
