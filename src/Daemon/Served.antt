-- ===== src/Daemon/Served.antt =====
-- What the parts of a round of the daemon keep (main.go, runDaemon).
use pia_wg_config_generator.Base.{
  ℕ, suc, ◌+◌, true, Option, none, some, List, [], ◌∷◌, ◌≡◌, refl, sym, ◌∙◌, inl, inr, arith,
  Bool-cases,
}
use pia_wg_config_generator.Base.Int.{leb_ℤ, pos}
use pia_wg_config_generator.Base.Text.{Text, text_eq, text_eq_iff}
use pia_wg_config_generator.PortForward.Daemon.{Lease, set, disable}
use pia_wg_config_generator.Daemon.{
  DaemonSettings, RoundWorld, DaemonError, DaemonEffect, wrote_port, ran_port_hook, status_write,
  slept_for, slept_until, DaemonState, RoundEnd, continue, exit, logged, disable_lease, fail,
  succeed, announce, adopt_port, remove_pending,
}

-- How often a status was written.
abbrev pub statuses : List DaemonEffect → ℕ
statuses [] = 0
statuses (status_write st ∷ log) = suc (statuses log)
statuses (_ ∷ log) = statuses log

-- What the file forwarded_port holds.
abbrev pub forwarded_port : List DaemonEffect → Option Text
forwarded_port [] = none
forwarded_port (wrote_port port ∷ log) = some port
forwarded_port (_ ∷ log) = forwarded_port log

-- The port that the hook was called with last, blank if it was not called.
abbrev pub hooked_with : List DaemonEffect → Text
hooked_with [] = []
hooked_with (ran_port_hook port ∷ log) = port
hooked_with (_ ∷ log) = hooked_with log

abbrev pub end_state : RoundEnd → DaemonState
end_state (continue s) = s
end_state (exit s) = s

-- An enabled lease is for the port that the hook was called with last and that forwarded_port holds;
-- `last_port` is the port of that call.
pub record IsServed (s : DaemonState) : Type 0 where
  pub remembered : s.last_port ≡ hooked_with s.log
  pub announced : s.lease.enabled ≡ true → s.lease.port ≡ hooked_with s.log
  pub in_file : s.lease.enabled ≡ true → forwarded_port s.log ≡ some s.lease.port

-- In the middle of a round that began in `s`.
pub record Mid (s t : DaemonState) : Type 0 where
  pub served : IsServed t
  pub unreported : statuses t.log ≡ statuses s.log

-- The last effect but for the sleep is the write of the status.
abbrev pub IsReported : List DaemonEffect → Type 0
IsReported (status_write st ∷ log) = Unit
IsReported (slept_for d ∷ status_write st ∷ log) = Unit
IsReported (slept_until t ∷ status_write st ∷ log) = Unit
IsReported log = ⊥

-- What every round that began in `s` ends with.
pub record IsDone (s : DaemonState) (r : RoundEnd) : Type 0 where
  pub served : IsServed (end_state r)
  pub once : statuses (end_state r).log ≡ statuses s.log + 1
  pub last : IsReported (end_state r).log

module _ (cfg : DaemonSettings) (w : RoundWorld) (s : DaemonState) where
  pub fail-IsDone :
      (port : Text) (e : DaemonError) (t : DaemonState) → Mid s t → IsDone s (fail cfg w port e t)
  unfolding fail
  fail-IsDone port e t m = elim (Bool-cases (leb_ℤ cfg.retry_delay (pos 0))) [
    | inl at_once ↦ rw at_once (record {
      served = record {
        remembered = m.served.remembered;
        announced = m.served.announced;
        in_file = m.served.in_file;
      };
      once = omega (arith, m.unreported);
      last = tt;
    })
    | inr waits ↦ rw waits (record {
      served = record {
        remembered = m.served.remembered;
        announced = m.served.announced;
        in_file = m.served.in_file;
      };
      once = omega (arith, m.unreported);
      last = tt;
    })
  ]

  pub succeed-IsDone : (port : Text) (t : DaemonState) → Mid s t → IsDone s (succeed cfg w port t)
  unfolding succeed
  succeed-IsDone port t m = record {
    served = record {
      remembered = m.served.remembered;
      announced = m.served.announced;
      in_file = m.served.in_file;
    };
    once = omega (arith, m.unreported);
    last = tt;
  }

  pub disable_lease-Mid : (t : DaemonState) → Mid s t → Mid s (disable_lease t)
  unfolding disable
  disable_lease-Mid t m = record {
    served = record {
      remembered = m.served.remembered;
      announced = λ h. absurd (cc);
      in_file = λ h. absurd (cc);
    };
    unreported = m.unreported;
  }

  announce-last_port : (port : Text) (t : DaemonState) → (announce port t).last_port ≡ port
  announce-last_port port t = elim (Bool-cases (text_eq port t.last_port)) [
    | inl same ↦ rw same (sym ((text_eq_iff port t.last_port).0 same))
    | inr new ↦ rw new refl
  ]

  -- The hook was called for the port, now or by the call before.
  announce-hooked_with :
      (port : Text) (t : DaemonState)
      → t.last_port ≡ hooked_with t.log
      → hooked_with (announce port t).log ≡ port
  announce-hooked_with port t e = elim (Bool-cases (text_eq port t.last_port)) [
    | inl same ↦ rw same (sym ((text_eq_iff port t.last_port).0 same ∙ e))
    | inr new ↦ rw new refl
  ]

  announce-forwarded_port :
      (port : Text) (t : DaemonState) → forwarded_port (announce port t).log ≡ forwarded_port t.log
  announce-forwarded_port port t = elim (Bool-cases (text_eq port t.last_port)) [
    | inl same ↦ rw same refl
    | inr new ↦ rw new refl
  ]

  announce-statuses :
      (port : Text) (t : DaemonState) → statuses (announce port t).log ≡ statuses t.log
  announce-statuses port t = elim (Bool-cases (text_eq port t.last_port)) [
    | inl same ↦ rw same refl
    | inr new ↦ rw new refl
  ]

  pub adopt_port-Mid : (l : Lease) (t : DaemonState) → Mid s t → Mid s (adopt_port l t)
  unfolding set
  adopt_port-Mid l t m =
      let written = logged (wrote_port l.port) t in
      let told = announce-hooked_with l.port written m.served.remembered in
      record {
        served = record {
          remembered = announce-last_port l.port written ∙ sym told;
          announced = λ h. sym told;
          in_file = λ h. announce-forwarded_port l.port written;
        };
        unreported = announce-statuses l.port written ∙ m.unreported;
      }

  pub remove_pending-Mid :
      (o : Option Text) (t : DaemonState) → Mid s t → Mid s (remove_pending o t)
  remove_pending-Mid none t m = record {
    served = record {
      remembered = m.served.remembered;
      announced = m.served.announced;
      in_file = m.served.in_file;
    };
    unreported = m.unreported;
  }
  remove_pending-Mid (some e) t m = m
