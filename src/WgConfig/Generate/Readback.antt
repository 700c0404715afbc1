-- ===== src/WgConfig/Generate/Readback.antt =====
-- The endpoint of a config that pia/wg.go generated, read back by ParseEndpointFromConfig of
-- pia/health.go.
use mathlib.Core.List
use pia_wg_config_generator.Base.{
  ℕ, false, List, [], ◌∷◌, ◌++◌, ◌≡◌, refl, ap, ◌∙◌, All, ◌==◌, arith, Bool-cases, inl, inr,
}
use pia_wg_config_generator.Base.Int.{ℤ}
use pia_wg_config_generator.Base.Text.{
  Text, codes, is_space, trim_left, to_lower, has_prefix, is_empty,
}
use pia_wg_config_generator.Base.Text.Decimal.{decimal}
use pia_wg_config_generator.Base.Text.Search.{has_byte-append}
use pia_wg_config_generator.Base.Text.Trim.{IsVisible, decimal-IsVisible}
use pia_wg_config_generator.Api.{Answer, ok, GenerateResult, AddKeyResult}
use pia_wg_config_generator.WgConfig.Endpoint.{parse_endpoint}
use pia_wg_config_generator.WgConfig.Endpoint.Scan.{
  IsOneLine, parse_endpoint-skip, parse_endpoint-here, endpoint_value-other, address,
  endpoint_value-address,
}
use pia_wg_config_generator.WgConfig.Generate.{
  Ipv6Mode, ipv6_mode_on, ipv6_mode_off, ipv6_mode_kill, PiaWgClient, GeneratorConfig,
  TemplateConfig, generated, generate_keys, generate_with_metadata, execute, template_config, line,
  hooks, name_comment, allowed_ips_of, post_up_of, post_down_of,
}
use pia_wg_config_generator.WgConfig.Generate.Usable.{generate_with_metadata-IsMade}

visible_byte : (c : ℕ) → is_space c ≡ false → (c == b'\n') ≡ false
unfolding is_space
visible_byte c h = ground (arith, h)

-- A visible text has no newline.
IsVisible-IsOneLine : (t : Text) → IsVisible t → IsOneLine t
unfolding is_space
IsVisible-IsOneLine [] h = refl
IsVisible-IsOneLine (c ∷ t) (h, hs) = rw (visible_byte c h) (IsVisible-IsOneLine t hs)

-- A line of a key that is not the endpoint's is passed over.
skip_value :
    (c : ℕ) (key v rest : Text)
    → is_space c ≡ false
    → ((t : Text) → has_prefix (to_lower (c ∷ t)) (codes "endpoint") ≡ false)
    → IsOneLine (c ∷ key)
    → IsOneLine v
    → parse_endpoint ((c ∷ (key ++ v)) ++ (b'\n' ∷ rest)) ≡ parse_endpoint rest
skip_value c key v rest visible other key_line one_line =
    parse_endpoint-skip (c ∷ (key ++ v)) rest (has_byte-append b'\n' (c ∷ key) v key_line one_line)
      (endpoint_value-other c (key ++ v) visible other)

-- The part of a peer up to its endpoint.
parse_endpoint-peer :
    (public_key allowed_ips host : Text) (port : ℤ) (rest : Text)
    → IsOneLine public_key
    → IsOneLine allowed_ips
    → IsOneLine host
    → trim_left host ≡ host
    → parse_endpoint (
        codes "[Peer]\n"
        ++ ((codes "PublicKey = " ++ public_key)
            ++ (b'\n' ∷ (codes "AllowedIPs = " ++ allowed_ips)
                ++ (b'\n' ∷ (codes "Endpoint = " ++ address host port) ++ (b'\n' ∷ rest)))))
      ≡ address host port
unfolding is_space has_prefix to_lower
parse_endpoint-peer public_key allowed_ips host port rest p a h trimmed =
    skip_value b'[' (codes "Peer]") []
      ((codes "PublicKey = " ++ public_key)
        ++ (b'\n' ∷ (codes "AllowedIPs = " ++ allowed_ips)
            ++ (b'\n' ∷ (codes "Endpoint = " ++ address host port) ++ (b'\n' ∷ rest))))
      refl (λ t. refl) refl refl
    ∙ skip_value b'P' (codes "ublicKey = ") public_key
        ((codes "AllowedIPs = " ++ allowed_ips)
          ++ (b'\n' ∷ (codes "Endpoint = " ++ address host port) ++ (b'\n' ∷ rest)))
        refl (λ t. refl) refl p
    ∙ skip_value b'A' (codes "llowedIPs = ") allowed_ips
        ((codes "Endpoint = " ++ address host port) ++ (b'\n' ∷ rest)) refl (λ t. refl) refl a
    ∙ parse_endpoint-here (codes "Endpoint = " ++ address host port) rest (address host port)
        (has_byte-append b'\n' (codes "Endpoint = ") (address host port) refl (
          has_byte-append b'\n' host (b':' ∷ decimal port) h
            (IsVisible-IsOneLine (decimal port) (decimal-IsVisible port))))
        (endpoint_value-address host port trimmed)

-- The part of an interface in front of its hooks.
parse_endpoint-interface :
    (private_key peer_ip dns rest : Text)
    → IsOneLine private_key
    → IsOneLine peer_ip
    → IsOneLine dns
    → parse_endpoint (
        codes "[Interface]\n"
        ++ ((codes "PrivateKey = " ++ private_key)
            ++ (b'\n' ∷ (codes "Address = " ++ peer_ip)
                ++ (b'\n' ∷ (codes "DNS = " ++ dns) ++ (b'\n' ∷ rest)))))
      ≡ parse_endpoint rest
unfolding is_space has_prefix to_lower
parse_endpoint-interface private_key peer_ip dns rest k i d =
    skip_value b'[' (codes "Interface]") []
      ((codes "PrivateKey = " ++ private_key)
        ++ (b'\n' ∷ (codes "Address = " ++ peer_ip)
            ++ (b'\n' ∷ (codes "DNS = " ++ dns) ++ (b'\n' ∷ rest))))
      refl (λ t. refl) refl refl
    ∙ skip_value b'P' (codes "rivateKey = ") private_key
        ((codes "Address = " ++ peer_ip) ++ (b'\n' ∷ (codes "DNS = " ++ dns) ++ (b'\n' ∷ rest)))
        refl (λ t. refl) refl k
    ∙ skip_value b'A' (codes "ddress = ") peer_ip ((codes "DNS = " ++ dns) ++ (b'\n' ∷ rest)) refl
        (λ t. refl) refl i
    ∙ skip_value b'D' (codes "NS = ") dns rest refl (λ t. refl) refl d

-- The hooks are passed over: what starts with them starts with a newline, and has the same endpoint.
record IsPassed (t : TemplateConfig) (peer : Text) : Type 0 where
  tail : Text
  starts : hooks t ++ (b'\n' ∷ peer) ≡ b'\n' ∷ tail
  same : parse_endpoint tail ≡ parse_endpoint peer

hooks-IsPassed :
    (t : TemplateConfig) (peer : Text)
    → IsOneLine t.post_up
    → IsOneLine t.post_down
    → IsPassed t peer
unfolding hooks line is_space has_prefix to_lower
hooks-IsPassed t peer up down = elim (Bool-cases (is_empty t.post_up)) [
  | inl none_set ↦ record { tail = peer; starts = rw none_set refl; same = refl }
  | inr set ↦ record {
    tail =
        (codes "PostUp = " ++ t.post_up)
        ++ (b'\n' ∷ (codes "PostDown = " ++ t.post_down) ++ (b'\n' ∷ peer));
    starts = rw set (
        ap (λ (r : Text). b'\n' ∷ r)
          (List.append_assoc (codes "PostUp = " ++ t.post_up)
            (b'\n' ∷ (codes "PostDown = " ++ t.post_down)) (b'\n' ∷ peer)));
    same =
        skip_value b'P' (codes "ostUp = ") t.post_up
          ((codes "PostDown = " ++ t.post_down) ++ (b'\n' ∷ peer)) refl (λ t. refl) refl up
        ∙ skip_value b'P' (codes "ostDown = ") t.post_down peer refl (λ t. refl) refl down;
  }
]

-- The values of a template, each on a line of its own.
record IsLined (t : TemplateConfig) : Type 0 where
  private_key : IsOneLine t.private_key
  address : IsOneLine t.address
  dns : IsOneLine t.dns
  post_up : IsOneLine t.post_up
  post_down : IsOneLine t.post_down
  public_key : IsOneLine t.public_key
  allowed_ips : IsOneLine t.allowed_ips
  endpoint : IsOneLine t.endpoint

parse_endpoint-execute :
    (t : TemplateConfig)
    → IsLined t
    → trim_left t.endpoint ≡ t.endpoint
    → parse_endpoint (execute t) ≡ address t.endpoint t.endpoint_port
unfolding execute line
parse_endpoint-execute t lined trimmed =
    let behind = codes "PersistentKeepalive = " ++ t.persistent_keepalive ++ name_comment t in
    let peer =
      codes "[Peer]\n"
      ++ ((codes "PublicKey = " ++ t.public_key)
          ++ (b'\n' ∷ (codes "AllowedIPs = " ++ t.allowed_ips)
              ++ (b'\n' ∷ (codes "Endpoint = " ++ address t.endpoint t.endpoint_port)
                  ++ (b'\n' ∷ behind)))) in
    let passed = hooks-IsPassed t peer lined.post_up lined.post_down in
    ap
      (λ (r : Text). parse_endpoint (
        codes "[Interface]\n"
        ++ ((codes "PrivateKey = " ++ t.private_key)
            ++ (b'\n' ∷ (codes "Address = " ++ t.address)
                ++ (b'\n' ∷ (codes "DNS = " ++ t.dns) ++ r)))))
      passed.starts
    ∙ parse_endpoint-interface t.private_key t.address t.dns passed.tail lined.private_key
        lined.address lined.dns
    ∙ passed.same
    ∙ parse_endpoint-peer t.public_key t.allowed_ips t.endpoint t.endpoint_port behind
        lined.public_key lined.allowed_ips lined.endpoint trimmed

allowed_ips_of-IsOneLine : (m : Ipv6Mode) → IsOneLine (allowed_ips_of m)
unfolding allowed_ips_of
allowed_ips_of-IsOneLine ipv6_mode_on = refl
allowed_ips_of-IsOneLine ipv6_mode_off = refl
allowed_ips_of-IsOneLine ipv6_mode_kill = refl

post_up_of-IsOneLine : (m : Ipv6Mode) → IsOneLine (post_up_of m)
unfolding post_up_of
post_up_of-IsOneLine ipv6_mode_on = refl
post_up_of-IsOneLine ipv6_mode_off = refl
post_up_of-IsOneLine ipv6_mode_kill = refl

post_down_of-IsOneLine : (m : Ipv6Mode) → IsOneLine (post_down_of m)
unfolding post_down_of
post_down_of-IsOneLine ipv6_mode_on = refl
post_down_of-IsOneLine ipv6_mode_off = refl
post_down_of-IsOneLine ipv6_mode_kill = refl

-- An answer of AddKey whose texts stay on one line, with an address that starts visibly.
pub record IsPrintable (key : AddKeyResult) : Type 0 where
  pub peer_ip : IsOneLine key.peer_ip
  pub dns : All IsOneLine key.dns_servers
  pub server_key : IsOneLine key.server_key
  pub server_ip : IsOneLine key.server_ip
  pub starts : trim_left key.server_ip ≡ key.server_ip

template_config-IsLined :
    (pia : PiaWgClient) (p : GeneratorConfig) (key : AddKeyResult) (dns privatekey : Text)
    (others : List Text)
    → key.dns_servers ≡ dns ∷ others
    → IsPrintable key
    → IsOneLine privatekey
    → IsLined (template_config pia p key dns privatekey)
unfolding template_config
template_config-IsLined pia p key dns privatekey others servers printable private_line = record {
  private_key = private_line;
  address = printable.peer_ip;
  dns = (rw servers at printable.dns).0;
  post_up = post_up_of-IsOneLine p.ipv6_mode;
  post_down = post_down_of-IsOneLine p.ipv6_mode;
  public_key = printable.server_key;
  allowed_ips = allowed_ips_of-IsOneLine p.ipv6_mode;
  endpoint = printable.server_ip;
}

-- When GenerateWithMetadata returns a result, ParseEndpointFromConfig reads the server's address and
-- port back from its config, in each IPv6 mode and with or without the server's name, if the texts of
-- the answer and the private key stay on one line and the address does not start with white space.
pub parse_endpoint-generate_with_metadata :
    (pia : PiaWgClient) (p : GeneratorConfig) (made : Answer (Text × Text)) (r : GenerateResult)
    → generate_with_metadata pia p made ≡ generated r
    → ((privatekey publickey : Text)
        → generate_keys p made ≡ ok (privatekey, publickey)
        → IsOneLine privatekey)
    → IsPrintable r.key
    → parse_endpoint r.config ≡ r.key.server_ip ++ (b':' ∷ decimal r.key.server_port)
unfolding template_config
parse_endpoint-generate_with_metadata pia p made r h private_line printable =
    let m = generate_with_metadata-IsMade pia p made r h in
    ap parse_endpoint m.config
    ∙ parse_endpoint-execute (template_config pia p r.key m.dns m.privatekey)
        (template_config-IsLined pia p r.key m.dns m.privatekey m.usable.others m.usable.servers
          printable (private_line m.privatekey m.publickey m.has_keys))
        printable.starts
