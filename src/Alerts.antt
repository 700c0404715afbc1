-- ===== src/Alerts.antt =====
-- The delivery of alerts (alert.go, alertDispatcher): the bounded queue with its worker, what a hook
-- gets, and the buffer of its output. Running a hook is outside the model: a delivery is the call of
-- the hook runner that it makes.
pub mod Worker
pub mod HookEnv
pub mod Buffer
use pia_wg_config_generator.Base.{
  Bool, true, false, Option, none, some, List, [], ◌∷◌, ◌++◌, if◌then◌else◌,
}
use pia_wg_config_generator.Base.Int.{ℤ, pos, leb_ℤ}
use pia_wg_config_generator.Base.Text.{Text, codes, text_eq, is_empty, trim_space, has_prefix}
use pia_wg_config_generator.Base.Text.Decimal.{decimal}
use pia_wg_config_generator.Clock.{Duration, seconds}
use pia_wg_config_generator.Clock.Float.{whole_seconds}

-- alertEventFailure and alertEventRecovered
abbrev pub alert_event_failure : Text
alert_event_failure = codes "failure"

abbrev pub alert_event_recovered : Text
alert_event_recovered = codes "recovered"

-- alertEvent
pub record Event : Type 0 where
  pub kind : Text
  pub message : Text
  pub attempts : ℤ
  pub outage : Duration

-- The fields of alertDispatcher that stay.
pub record Dispatcher : Type 0 where
  pub failure_cmd : Text
  pub recovered_cmd : Text
  pub region : Text
  pub timeout : Duration

-- newAlertDispatcher
unfoldable pub new_alert_dispatcher : Text → Text → Text → Duration → Dispatcher
new_alert_dispatcher failure_cmd recovered_cmd region timeout = record {
  failure_cmd = trim_space failure_cmd;
  recovered_cmd = trim_space recovered_cmd;
  region = region;
  timeout = if leb_ℤ timeout (pos 0) then seconds 15 else timeout;
}

-- The environment of the process: os.LookupEnv, and os.Environ as KEY=VALUE.
pub record ProcessEnv : Type 0 where
  pub lookup : Text → Option Text
  pub environ : List Text

abbrev pub inherited_keys : List Text
inherited_keys =
    codes "PATH"
    ∷ codes "HOME"
    ∷ codes "TZ"
    ∷ codes "LANG"
    ∷ codes "SSL_CERT_FILE"
    ∷ codes "SSL_CERT_DIR"
    ∷ []

add_inherited : Text → Option Text → List Text → List Text
add_inherited key none rest = rest
add_inherited key (some v) rest = (key ++ (b'=' ∷ v)) ∷ rest

inherited : ProcessEnv → List Text → List Text → List Text
unfolding add_inherited
inherited p [] rest = rest
inherited p (key ∷ keys) rest = add_inherited key (p.lookup key) (inherited p keys rest)

alert_variables : List Text → List Text
alert_variables [] = []
alert_variables (kv ∷ kvs) =
    let rest = alert_variables kvs in
    if has_prefix kv (codes "PIA_WG_ALERT_") then kv ∷ rest else rest

-- hookEnv
unfoldable pub hook_env : Dispatcher → ProcessEnv → Event → List Text
unfolding inherited alert_variables
hook_env d p ev =
    (codes "PIA_WG_EVENT=" ++ ev.kind)
    ∷ (codes "PIA_WG_MESSAGE=" ++ ev.message)
    ∷ (codes "PIA_WG_REGION=" ++ d.region)
    ∷ (codes "PIA_WG_ATTEMPTS=" ++ decimal ev.attempts)
    ∷ (codes "PIA_WG_OUTAGE_SECONDS=" ++ decimal (whole_seconds ev.outage))
    ∷ inherited p inherited_keys (alert_variables p.environ)

-- A call of the hook runner.
pub record HookCall : Type 0 where
  pub command : Text
  pub env : List Text
  pub timeout : Duration

-- deliver: the call that it makes, if a command is set. Its error is only logged.
unfoldable pub deliver : Dispatcher → ProcessEnv → Event → Option HookCall
deliver d p ev =
    let cmd = if text_eq ev.kind alert_event_recovered then d.recovered_cmd else d.failure_cmd in
    if is_empty cmd
    then none
    else some record { command = cmd; env = hook_env d p ev; timeout = d.timeout }
