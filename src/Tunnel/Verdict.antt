-- ===== src/Tunnel/Verdict.antt =====
-- When a sample of the tunnel is healthy.
use pia_wg_config_generator.Base.{
  true, false, Option, none, some, List, [], ◌∷◌, ◌≡◌, ◌≢◌, ◌↔◌, inl, inr, refl, arith, Bool-cases,
}
use pia_wg_config_generator.Base.Text.{Text, is_empty, equal_fold}
use pia_wg_config_generator.Clock.{Duration}
use pia_wg_config_generator.Tunnel.{
  Fetch, fetch_gluetun_status, fetch_gluetun_public_ip, check_tunnel, base_of, reply_of, vpn_path,
  openvpn_path, ip_path, running_text, with_public_ip, judge, first_status,
}

-- The status that decides: that of the current path, and of the legacy one if that cannot be read.
pub data StatusIs (vpn openvpn : Option Text) (s : Text) : Type 0 where
  current : vpn ≡ some s → StatusIs vpn openvpn s
  legacy : vpn ≡ none → openvpn ≡ some s → StatusIs vpn openvpn s

-- The control server vouches for the tunnel: a status can be read and says running, in any case of
-- letters, and the public IP is not read as empty.
pub record IsVouchedFor (vpn openvpn ip : Option Text) : Type 0 where
  pub status : Text
  pub status_is : StatusIs vpn openvpn status
  pub says_running : equal_fold status running_text ≡ true
  pub has_ip : ip ≢ some []

judge-healthy :
    (ip : Option Text) (s : Text)
    → ((judge ip s).healthy ≡ true) ↔ ((equal_fold s running_text ≡ true) × (ip ≢ some []))
unfolding judge with_public_ip
judge-healthy none s = (λ h. (ground arith, λ e. cc), λ h. ground arith)
judge-healthy (some []) s = (λ h. absurd (ground arith), λ h. absurd (h.1 refl))
judge-healthy (some (c ∷ cs)) s = (λ h. (ground arith, λ e. cc), λ h. ground arith)

vouched_current :
    (s : Text) (openvpn ip : Option Text) (t : Text)
    → StatusIs (some s) openvpn t
    → equal_fold t running_text ≡ true
    → ip ≢ some []
    → (judge ip s).healthy ≡ true
vouched_current s openvpn ip t (current e) r i =
    let same : s ≡ t = cc in (judge-healthy ip s).1 (rw same r, i)
vouched_current s openvpn ip t (legacy n e) r i = absurd (cc)

vouched_legacy :
    (s : Text) (ip : Option Text) (t : Text)
    → StatusIs none (some s) t
    → equal_fold t running_text ≡ true
    → ip ≢ some []
    → (judge ip s).healthy ≡ true
vouched_legacy s ip t (current e) r i = absurd (cc)
vouched_legacy s ip t (legacy n e) r i =
    let same : s ≡ t = cc in (judge-healthy ip s).1 (rw same r, i)

no_status : (t : Text) → ¬ StatusIs none none t
no_status t (current e) = cc
no_status t (legacy n e) = cc

first_status-healthy :
    (vpn openvpn ip : Option Text)
    → ((first_status ip (vpn ∷ openvpn ∷ [])).healthy ≡ true) ↔ IsVouchedFor vpn openvpn ip
unfolding first_status
first_status-healthy (some s) openvpn ip = (
  (λ h.
      let (r, i) = (judge-healthy ip s).0 h in
      record { status = s; status_is = current refl; says_running = r; has_ip = i }),
  λ v. vouched_current s openvpn ip v.status v.status_is v.says_running v.has_ip,
)
first_status-healthy none (some s) ip = (
  (λ h.
      let (r, i) = (judge-healthy ip s).0 h in
      record { status = s; status_is = legacy refl refl; says_running = r; has_ip = i }),
  λ v. vouched_legacy s ip v.status v.status_is v.says_running v.has_ip,
)
first_status-healthy none none ip =
    ((λ h. absurd (cc)), λ v. absurd (no_status v.status v.status_is))

-- A sample is healthy just if the control server URL is not empty and the server vouches for the
-- tunnel: a status can be read, from the current path or else from the legacy one, it says
-- running, and the public IP is not read as empty. So a tunnel that runs without a public IP is
-- unhealthy, and one whose public IP cannot be read is judged by its status alone.
pub check_tunnel-healthy :
    (fetch : Fetch) (control_url : Text) (timeout : Duration)
    → ((check_tunnel fetch control_url timeout).healthy ≡ true) ↔ (
        (is_empty (base_of control_url) ≡ false)
        × IsVouchedFor
            (fetch_gluetun_status (reply_of fetch control_url timeout vpn_path))
            (fetch_gluetun_status (reply_of fetch control_url timeout openvpn_path))
            (fetch_gluetun_public_ip (reply_of fetch control_url timeout ip_path)))
unfolding check_tunnel
check_tunnel-healthy fetch control_url timeout =
    elim (Bool-cases (is_empty (base_of control_url))) [
      | inl e ↦ rw e ((λ h. absurd (cc)), λ h. absurd (ground arith))
      | inr e ↦
          let lem =
            first_status-healthy
              (fetch_gluetun_status (reply_of fetch control_url timeout vpn_path))
              (fetch_gluetun_status (reply_of fetch control_url timeout openvpn_path))
              (fetch_gluetun_public_ip (reply_of fetch control_url timeout ip_path)) in
          rw e ((λ h. (refl, lem.0 h)), λ h. lem.1 h.1)
    ]

first_status_err :
    (ip : Option Text) (rs : List (Option Text))
    → ((first_status ip rs).healthy ≡ true) ↔ ((first_status ip rs).err ≡ none)
unfolding first_status judge with_public_ip
first_status_err ip [] = ((λ h. absurd (cc)), λ h. absurd (cc))
first_status_err ip (none ∷ rs) = first_status_err ip rs
first_status_err none (some s ∷ rs) = ((λ h. ground arith), λ h. ground arith)
first_status_err (some i) (some s ∷ rs) = ((λ h. ground arith), λ h. ground arith)

-- A sample carries an error just if it is unhealthy.
check_tunnel-err :
    (fetch : Fetch) (control_url : Text) (timeout : Duration)
    → ((check_tunnel fetch control_url timeout).healthy ≡ true)
      ↔ ((check_tunnel fetch control_url timeout).err ≡ none)
unfolding check_tunnel
check_tunnel-err fetch control_url timeout = elim (Bool-cases (is_empty (base_of control_url))) [
  | inl e ↦ rw e ((λ h. absurd (cc)), λ h. absurd (cc))
  | inr e ↦ rw e (
      first_status_err (fetch_gluetun_public_ip (reply_of fetch control_url timeout ip_path)) (
        fetch_gluetun_status (reply_of fetch control_url timeout vpn_path)
        ∷ fetch_gluetun_status (reply_of fetch control_url timeout openvpn_path)
        ∷ []))
]
