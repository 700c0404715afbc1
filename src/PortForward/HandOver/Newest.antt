-- ===== src/PortForward/HandOver/Newest.antt =====
-- The newest hand-over in a log of the refresh daemon (refresh.go, writePendingPortForward), and the
-- others.
use mathlib.Core.List.{Memᴰ}
use mathlib.Core.Path.{subst}
use pia_wg_config_generator.Base.{
  none, some, List, [], ◌∷◌, ◌≡◌, ◌⊎◌, inl, inr, refl, sym, ◌∙◌, All,
}
use pia_wg_config_generator.Base.Int.{◌<ℤ◌}
use pia_wg_config_generator.Clock.{Time, zero_time}
use pia_wg_config_generator.Api.{AddKeyResult, GenerateResult}
use pia_wg_config_generator.PortForward.Daemon.{PendingPortForward}
use pia_wg_config_generator.Refresh.{
  Effect, registered, wrote_config, wrote_pending, ran_config_hook, asked_restart, wrote_status,
  alerted, slept,
}
use pia_wg_config_generator.Refresh.HandOver.{HandsBefore, HandsOver}
use pia_wg_config_generator.PortForward.HandOver.{newest}

-- An effect that hands nothing over leaves the pending file as it is.
pub data Kind : Effect → Type 0 where
  hands : (t : Time) (key : AddKeyResult) → Kind (wrote_pending t key)
  aside :
      {e : Effect}
      → ((log : List Effect) → newest (e ∷ log) ≡ newest log)
      → ((log : List Effect) → HandsOver (e ∷ log) → HandsOver log)
      → ((t : Time) (key : AddKeyResult) → wrote_pending t key ≡ e → ⊥)
      → Kind e

pub kind : (e : Effect) → Kind e
kind (registered gen) = aside (λ log. refl) (λ log h. h) (λ t key same. cc)
kind (wrote_config text) = aside (λ log. refl) (λ log h. h) (λ t key same. cc)
kind (wrote_pending t key) = hands t key
kind (ran_config_hook cmd) = aside (λ log. refl) (λ log h. h) (λ t key same. cc)
kind (asked_restart name) = aside (λ log. refl) (λ log h. h) (λ t key same. cc)
kind (wrote_status st) = aside (λ log. refl) (λ log h. h) (λ t key same. cc)
kind (alerted e) = aside (λ log. refl) (λ log h. h) (λ t key same. cc)
kind (slept d) = aside (λ log. refl) (λ log h. h) (λ t key same. cc)

pending-injective :
    (t u : Time) (key other : AddKeyResult)
    → wrote_pending t key ≡ wrote_pending u other
    → (t ≡ u) × (key ≡ other)
pending-injective t u key other h = (cc, cc)

some-injective : (p q : PendingPortForward) → some p ≡ some q → p ≡ q
some-injective p q h = cc

-- The newest hand-over of a log: its registration, and that it is one.
pub record IsNewest (log : List Effect) (p : PendingPortForward) : Type 0 where
  pub gen : GenerateResult
  pub is_key : gen.key ≡ p.key
  pub made : Memᴰ (registered gen) log
  pub given : Memᴰ (wrote_pending p.created_utc p.key) log
  pub positive : zero_time <ℤ p.created_utc

newest-IsNewest_cons :
    (e : Effect) (log : List Effect) (p : PendingPortForward)
    → Kind e
    → (HandsOver log → newest log ≡ some p → IsNewest log p)
    → HandsOver (e ∷ log)
    → newest (e ∷ log) ≡ some p
    → IsNewest (e ∷ log) p
newest-IsNewest_cons e log p (hands t key) behind (ran, (gen, same, made), before, h) now =
    rw (sym (some-injective record { created_utc = t; key = key } p now)) (record {
      gen = gen;
      is_key = same;
      made = Memᴰ.tail made;
      given = Memᴰ.head refl;
      positive = ran;
    })
newest-IsNewest_cons e log p (aside same drops other) behind h now =
    let n = behind (drops log h) (sym (same log) ∙ now) in
    record {
      gen = n.gen;
      is_key = n.is_key;
      made = Memᴰ.tail n.made;
      given = Memᴰ.tail n.given;
      positive = n.positive;
    }

pub newest-IsNewest :
    (log : List Effect) (p : PendingPortForward)
    → HandsOver log
    → newest log ≡ some p
    → IsNewest log p
newest-IsNewest [] p h now = absurd (cc)
newest-IsNewest (e ∷ log) p h now =
    newest-IsNewest_cons e log p (kind e) (newest-IsNewest log p) h now

before_given :
    (t u : Time) (key : AddKeyResult) (log : List Effect)
    → All (HandsBefore t) log
    → Memᴰ (wrote_pending u key) log
    → u <ℤ t
before_given t u key [] b given = elim given [ ]
before_given t u key (e ∷ log) (b, bs) (Memᴰ.head same) = (subst (HandsBefore t) (sym same) b).1
before_given t u key (e ∷ log) (b, bs) (Memᴰ.tail given) = before_given t u key log bs given

given_cases_cons :
    (e : Effect) (log : List Effect) (p : PendingPortForward) (u : Time) (key : AddKeyResult)
    → Kind e
    → (HandsOver log
        → newest log ≡ some p
        → Memᴰ (wrote_pending u key) log
        → ((u ≡ p.created_utc) × (key ≡ p.key)) ⊎ (u <ℤ p.created_utc))
    → HandsOver (e ∷ log)
    → newest (e ∷ log) ≡ some p
    → Memᴰ (wrote_pending u key) (e ∷ log)
    → ((u ≡ p.created_utc) × (key ≡ p.key)) ⊎ (u <ℤ p.created_utc)
given_cases_cons e log p u key (hands t k) behind (ran, made, before, h) now (Memᴰ.head same) =
    rw (sym (some-injective record { created_utc = t; key = k } p now))
      (inl (pending-injective u t key k same))
given_cases_cons e log p u key (hands t k) behind (ran, made, before, h) now (Memᴰ.tail given) =
    rw (sym (some-injective record { created_utc = t; key = k } p now))
      (inr (before_given t u key log before given))
given_cases_cons e log p u key (aside same drops other) behind h now (Memᴰ.head is_e) =
    absurd (other u key is_e)
given_cases_cons e log p u key (aside same drops other) behind h now (Memᴰ.tail given) =
    behind (drops log h) (sym (same log) ∙ now) given

-- A key was handed over with the newest one, or before it.
pub given_cases :
    (log : List Effect) (p : PendingPortForward) (u : Time) (key : AddKeyResult)
    → HandsOver log
    → newest log ≡ some p
    → Memᴰ (wrote_pending u key) log
    → ((u ≡ p.created_utc) × (key ≡ p.key)) ⊎ (u <ℤ p.created_utc)
given_cases [] p u key h now given = absurd (cc)
given_cases (e ∷ log) p u key h now given =
    given_cases_cons e log p u key (kind e) (given_cases log p u key) h now given

none_given_cons :
    (e : Effect) (log : List Effect) (u : Time) (key : AddKeyResult)
    → Kind e
    → (newest log ≡ none → Memᴰ (wrote_pending u key) log → ⊥)
    → newest (e ∷ log) ≡ none
    → Memᴰ (wrote_pending u key) (e ∷ log)
    → ⊥
none_given_cons e log u key (hands t k) behind now given = cc
none_given_cons e log u key (aside same drops other) behind now (Memᴰ.head is_e) = other u key is_e
none_given_cons e log u key (aside same drops other) behind now (Memᴰ.tail given) =
    behind (sym (same log) ∙ now) given

pub none_given :
    (log : List Effect) (u : Time) (key : AddKeyResult)
    → newest log ≡ none
    → Memᴰ (wrote_pending u key) log
    → ⊥
none_given [] u key now given = elim given [ ]
none_given (e ∷ log) u key now given =
    none_given_cons e log u key (kind e) (none_given log u key) now given

pub HandsOver-behind :
    (e : Effect) (log : List Effect) → Kind e → HandsOver (e ∷ log) → HandsOver log
HandsOver-behind e log (hands t key) (ran, made, before, h) = h
HandsOver-behind e log (aside same drops other) h = drops log h
