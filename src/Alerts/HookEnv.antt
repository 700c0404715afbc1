-- ===== src/Alerts/HookEnv.antt =====
-- A hook does not get the account's credentials (alert.go, hookEnv).
use pia_wg_config_generator.Base.{
  true, false, ◌||◌, Option, none, some, List, [], ◌∷◌, ◌++◌, ◌≡◌, refl, inl, inr, arith,
  Bool-cases, All,
}
use pia_wg_config_generator.Base.Text.{Text, codes, has_prefix}
use pia_wg_config_generator.Alerts.{
  Dispatcher, ProcessEnv, Event, inherited_keys, add_inherited, inherited, alert_variables,
  hook_env,
}

-- The variables that hold the account's name and password.
abbrev pub IsNoCredential : Text → Type 0
IsNoCredential kv =
    (has_prefix kv (codes "PIA_USERNAME=") ≡ false)
    × (has_prefix kv (codes "PIA_PASSWORD=") ≡ false)

-- Two prefixes of one text: one is a prefix of the other.
prefixes :
    (s p q : Text)
    → has_prefix s p ≡ true
    → has_prefix s q ≡ true
    → has_prefix p q || has_prefix q p ≡ true
unfolding has_prefix
prefixes s [] [] h k = refl
prefixes s [] (y ∷ q) h k = refl
prefixes s (x ∷ p) [] h k = refl
prefixes [] (x ∷ p) (y ∷ q) h k = absurd (cc)
prefixes (c ∷ s) (x ∷ p) (y ∷ q) h k = ground (arith, prefixes s p q)

IsNoCredential-of_prefix :
    (kv p : Text)
    → has_prefix kv p ≡ true
    → has_prefix p (codes "PIA_USERNAME=") || has_prefix (codes "PIA_USERNAME=") p ≡ false
    → has_prefix p (codes "PIA_PASSWORD=") || has_prefix (codes "PIA_PASSWORD=") p ≡ false
    → IsNoCredential kv
IsNoCredential-of_prefix kv p h u w =
    (not_both (codes "PIA_USERNAME=") u, not_both (codes "PIA_PASSWORD=") w)
  where
    not_both : (q : Text) → has_prefix p q || has_prefix q p ≡ false → has_prefix kv q ≡ false
    not_both q apart = elim (Bool-cases (has_prefix kv q)) [
      | inl both ↦ let one = prefixes kv p q h both in absurd (cc)
      | inr apart_too ↦ apart_too
    ]

alert_variables-IsNoCredential : (kvs : List Text) → All IsNoCredential (alert_variables kvs)
unfolding alert_variables
alert_variables-IsNoCredential [] = tt
alert_variables-IsNoCredential (kv ∷ kvs) =
    elim (Bool-cases (has_prefix kv (codes "PIA_WG_ALERT_"))) [
      | inl keep ↦ rw keep (
        IsNoCredential-of_prefix kv (codes "PIA_WG_ALERT_") keep (unfold has_prefix in refl)
            (unfold has_prefix in refl),
        alert_variables-IsNoCredential kvs,
      )
      | inr drop ↦ rw drop (alert_variables-IsNoCredential kvs)
    ]

add_inherited-IsNoCredential :
    (key : Text) (v : Option Text) (rest : List Text)
    → ((t : Text) → IsNoCredential (key ++ (b'=' ∷ t)))
    → All IsNoCredential rest
    → All IsNoCredential (add_inherited key v rest)
unfolding add_inherited
add_inherited-IsNoCredential key none rest h k = k
add_inherited-IsNoCredential key (some v) rest h k = (h v, k)

-- A variable of this name is no credential, whatever its value.
abbrev IsHarmless : Text → Type 0
IsHarmless key = (t : Text) → IsNoCredential (key ++ (b'=' ∷ t))

inherited-IsNoCredential :
    (p : ProcessEnv) (keys rest : List Text)
    → All IsHarmless keys
    → All IsNoCredential rest
    → All IsNoCredential (inherited p keys rest)
unfolding inherited
inherited-IsNoCredential p [] rest h k = k
inherited-IsNoCredential p (key ∷ keys) rest h k =
    add_inherited-IsNoCredential key (p.lookup key) (inherited p keys rest) h.0
      (inherited-IsNoCredential p keys rest h.1 k)

inherited_keys-IsHarmless : All IsHarmless inherited_keys
unfolding has_prefix
inherited_keys-IsHarmless = (
  λ t. (refl, refl),
  (
    λ t. (refl, refl),
    (λ t. (refl, refl), (λ t. (refl, refl), (λ t. (refl, refl), (λ t. (refl, refl), tt)))),
  ),
)

-- No entry of the environment that a hook gets sets PIA_USERNAME or PIA_PASSWORD, whatever the
-- environment of the process, the event and the region are.
pub hook_env-IsNoCredential :
    (d : Dispatcher) (p : ProcessEnv) (ev : Event) → All IsNoCredential (hook_env d p ev)
unfolding hook_env has_prefix
hook_env-IsNoCredential d p ev =
    let own : All IsNoCredential (inherited p inherited_keys (alert_variables p.environ)) =
      inherited-IsNoCredential p inherited_keys (alert_variables p.environ)
        inherited_keys-IsHarmless (alert_variables-IsNoCredential p.environ) in
    ((refl, refl), ((refl, refl), ((refl, refl), ((refl, refl), ((refl, refl), own)))))
