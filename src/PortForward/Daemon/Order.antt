-- ===== src/PortForward/Daemon/Order.antt =====
-- Which actions of the poll loop and the renewal (pf_daemon.go, runPF, and main.go, startPFRenewLoop) are
-- in order, as a predicate of the actions alone.
use pia_wg_config_generator.Base.{false, Option, none, some, List, [], ◌∷◌, ◌≡◌}
use pia_wg_config_generator.Base.Text.{Text, text_eq}
use pia_wg_config_generator.PortForward.Daemon.{Lease}
use pia_wg_config_generator.PortForward.Daemon.Turns.{
  PfAction, acquired_lease, failed_to_acquire, ran_hook, set_lease, disabled_lease, took_snapshot,
  bound_port,
}

-- The lease that the last acquisition gave, if it did not fail.
abbrev pub acquisition : List PfAction → Option Lease
acquisition [] = none
acquisition (acquired_lease l ∷ past) = some l
acquisition (failed_to_acquire ∷ past) = none
acquisition (_ ∷ past) = acquisition past

-- The lease in force: the one set last, if it was not disabled since.
abbrev pub in_force : List PfAction → Option Lease
in_force [] = none
in_force (set_lease l ∷ past) = some l
in_force (disabled_lease ∷ past) = none
in_force (_ ∷ past) = in_force past

-- The lease in force when the last snapshot was taken, if no renewal has used it yet.
abbrev pub snapped : List PfAction → Option Lease
snapped [] = none
snapped (took_snapshot ∷ past) = in_force past
snapped (bound_port gateway sig ∷ past) = none
snapped (_ ∷ past) = snapped past

-- The port that the hook ran with last; blank before its first run.
abbrev pub announced : List PfAction → Text
announced [] = []
announced (ran_hook port ∷ past) = port
announced (_ ∷ past) = announced past

-- The last acquisition, if there is one, has come to an end: its lease was set, or the lease disabled.
abbrev pub IsSettled : List PfAction → Type 0
IsSettled [] = Unit
IsSettled (acquired_lease l ∷ past) = ⊥
IsSettled (failed_to_acquire ∷ past) = ⊥
IsSettled (set_lease l ∷ past) = Unit
IsSettled (disabled_lease ∷ past) = Unit
IsSettled (_ ∷ past) = IsSettled past

-- Each renewal binds the lease that was in force at its snapshot. An acquisition begins only when the
-- one before it has come to an end. A lease is set only as that of the
-- last acquisition, with its port announced, and disabled only if the last acquisition failed; and the
-- hook runs only for the port of the last acquisition, if that is not the one it ran for before.
abbrev pub IsInOrder : List PfAction → Type 0
IsInOrder [] = Unit
IsInOrder (bound_port gateway sig ∷ past) =
    ((l : Lease) × (snapped past ≡ some l) × (l.gateway ≡ gateway) × (l.sig ≡ sig)) × IsInOrder past
IsInOrder (set_lease l ∷ past) =
    ((acquisition past ≡ some l) × (announced past ≡ l.port)) × IsInOrder past
IsInOrder (disabled_lease ∷ past) = (acquisition past ≡ none) × IsInOrder past
IsInOrder (ran_hook port ∷ past) =
    ((l : Lease) × (acquisition past ≡ some l)
      × (l.port ≡ port)
      × (text_eq port (announced past) ≡ false))
    × IsInOrder past
IsInOrder (acquired_lease l ∷ past) = IsSettled past × IsInOrder past
IsInOrder (failed_to_acquire ∷ past) = IsSettled past × IsInOrder past
IsInOrder (took_snapshot ∷ past) = IsInOrder past
