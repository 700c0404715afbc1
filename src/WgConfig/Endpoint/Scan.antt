-- ===== src/WgConfig/Endpoint/Scan.antt =====
-- The lines of a config as ParseEndpointFromConfig (pia/health.go) reads them.
use pia_wg_config_generator.Base.{ℕ, false, none, some, [], ◌∷◌, ◌++◌, ◌≡◌, refl, ap, ◌∙◌}
use pia_wg_config_generator.Base.Int.{ℤ}
use pia_wg_config_generator.Base.Text.{
  Text, codes, is_space, trim_left, trim_right, trim_space, to_lower, has_prefix,
}
use pia_wg_config_generator.Base.Text.Decimal.{decimal}
use pia_wg_config_generator.Base.Text.Search.{has_byte, split_byte-append, after_byte-append}
use pia_wg_config_generator.Base.Text.Trim.{
  trim_left-append, trim_right-append, trim_right_visible, decimal-IsVisible,
}
use pia_wg_config_generator.WgConfig.Endpoint.{
  endpoint_value, scan_lines, first_value, parse_endpoint,
}

-- A text that stays on one line.
abbrev pub IsOneLine : Text → Type 0
IsOneLine t = has_byte b'\n' t ≡ false

trim_space-cons : (c : ℕ) (s : Text) → is_space c ≡ false → trim_space (c ∷ s) ≡ c ∷ trim_right s
unfolding trim_space trim_left
trim_space-cons c s h = rw h (trim_right-append [] c s h)

-- A line without a value is passed over.
pub parse_endpoint-skip :
    (w rest : Text)
    → IsOneLine w
    → endpoint_value w ≡ none
    → parse_endpoint (w ++ (b'\n' ∷ rest)) ≡ parse_endpoint rest
unfolding parse_endpoint scan_lines first_value
parse_endpoint-skip w rest one_line h = rw (split_byte-append b'\n' w rest one_line, h) refl

-- The first line with a value decides.
pub parse_endpoint-here :
    (w rest v : Text)
    → IsOneLine w
    → endpoint_value w ≡ some v
    → parse_endpoint (w ++ (b'\n' ∷ rest)) ≡ v
unfolding parse_endpoint scan_lines first_value
parse_endpoint-here w rest v one_line h = rw (split_byte-append b'\n' w rest one_line, h) refl

-- A line that starts with a visible byte behind which no key word fits.
pub endpoint_value-other :
    (c : ℕ) (s : Text)
    → is_space c ≡ false
    → ((t : Text) → has_prefix (to_lower (c ∷ t)) (codes "endpoint") ≡ false)
    → endpoint_value (c ∷ s) ≡ none
unfolding endpoint_value
endpoint_value-other c s h other = rw (trim_space-cons c s h, other (trim_right s)) refl

-- An address and a port, as the template writes them.
abbrev pub address : Text → ℤ → Text
address host port = host ++ (b':' ∷ decimal port)

trim_right-address : (host : Text) (port : ℤ) → trim_right (address host port) ≡ address host port
unfolding is_space
trim_right-address host port =
    trim_right-append host b':' (decimal port) refl
    ∙ ap (λ (r : Text). host ++ (b':' ∷ r))
        (trim_right_visible (decimal port) (decimal-IsVisible port))

trim_space-address :
    (host : Text) (port : ℤ)
    → trim_left host ≡ host
    → trim_space (b' ' ∷ address host port) ≡ address host port
unfolding trim_space trim_left is_space
trim_space-address host port h =
    ap trim_right (
      trim_left-append host b':' (decimal port) refl
      ∙ ap (λ (r : Text). r ++ (b':' ∷ decimal port)) h)
    ∙ trim_right-address host port

trim_space-line :
    (host : Text) (port : ℤ)
    → trim_space (codes "Endpoint = " ++ address host port)
      ≡ codes "Endpoint = " ++ address host port
unfolding is_space
trim_space-line host port =
    trim_space-cons b'E' (codes "ndpoint = " ++ address host port) refl
    ∙ ap (λ (r : Text). b'E' ∷ r) (trim_right-address (codes "ndpoint = " ++ host) port)

pub endpoint_value-address :
    (host : Text) (port : ℤ)
    → trim_left host ≡ host
    → endpoint_value (codes "Endpoint = " ++ address host port) ≡ some (address host port)
unfolding endpoint_value has_prefix to_lower
endpoint_value-address host port h =
    rw
      (
        trim_space-line host port,
        after_byte-append b'=' (codes "Endpoint ") (b' ' ∷ address host port) refl,
      )
      (ap (λ (v : Text). some v) (trim_space-address host port h))
