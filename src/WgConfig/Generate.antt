-- ===== src/WgConfig/Generate.antt =====
-- GenerateWithMetadata and generateConfig of pia/wg.go. The client of PIA's API is an interface in
-- the source, and so a record of its answers here; the key pair that wgtypes makes is an argument.
pub mod Usable
pub mod Readback
use Prim.Native.String.{String}
use pia_wg_config_generator.Base.{
  ℕ, zero, suc, ◌+◌, ◌/◌, ◌%◌, Bool, true, false, not, ◌&&◌, ◌||◌, Option, none, some, List, [],
  ◌∷◌, ◌++◌, if◌then◌else◌,
}
use pia_wg_config_generator.Base.Int.{ℤ, pos, negsuc, ltb_ℤ}
use pia_wg_config_generator.Base.Text.{Text, codes, text_eq, is_empty, trim_space}
use pia_wg_config_generator.Base.Text.Decimal.{decimal}
use pia_wg_config_generator.Api.{Answer, ok, failed, AddKeyResult, GenerateResult}
use pia_wg_config_generator.Regions.{Server}

pub data Ipv6Mode : Type 0 where
  ipv6_mode_on ipv6_mode_off ipv6_mode_kill : Ipv6Mode

-- PIAWgClient, by what its methods return.
pub record PiaWgClient : Type 0 where
  pub get_token : Answer Text
  pub add_key : Text → Text → Answer AddKeyResult
  pub get_metadata_server_for_region : Server

-- PIAWgGeneratorConfig, without `verbose`.
pub record GeneratorConfig : Type 0 where
  pub server_name : Bool
  pub privatekey : Text
  pub publickey : Text
  pub ipv6_mode : Ipv6Mode

pub data GenerateError : Type 0 where
  token_error key_error add_key_error non_ok_status : Text → GenerateError
  invalid_server_port invalid_server_ip no_dns_servers : GenerateError

pub record TemplateConfig : Type 0 where
  pub address : Text
  pub allowed_ips : Text
  pub dns : Text
  pub endpoint : Text
  pub endpoint_port : ℤ
  pub private_key : Text
  pub public_key : Text
  pub persistent_keepalive : Text
  pub server_common_name : Text
  pub post_up : Text
  pub post_down : Text

line : String → Text → Text
line key value = codes key ++ (codes " = " ++ value)

-- The parts of wireguardConfigTemplate that an empty value leaves out, with the newline before.
hooks : TemplateConfig → Text
unfolding line
hooks t =
    if is_empty t.post_up
    then []
    else b'\n' ∷ line "PostUp" t.post_up ++ (b'\n' ∷ line "PostDown" t.post_down)

name_comment : TemplateConfig → Text
unfolding line
name_comment t =
    if is_empty t.server_common_name
    then []
    else b'\n' ∷ line "# ServerCommonName" t.server_common_name

-- wireguardConfigTemplate, executed.
unfoldable pub execute : TemplateConfig → Text
unfolding line hooks name_comment
execute t =
    codes "[Interface]\n"
    ++ (line "PrivateKey" t.private_key
        ++ (b'\n' ∷ line "Address" t.address
            ++ (b'\n' ∷ line "DNS" t.dns
                ++ (hooks t
                    ++ (b'\n' ∷ codes "[Peer]\n"
                        ++ (line "PublicKey" t.public_key
                            ++ (b'\n' ∷ line "AllowedIPs" t.allowed_ips
                                ++ (b'\n'
                                      ∷ line "Endpoint"
                                          (t.endpoint ++ (b':' ∷ decimal t.endpoint_port))
                                    ++ (b'\n' ∷ line "PersistentKeepalive" t.persistent_keepalive
                                        ++ name_comment t)))))))))

-- allowedIPs, postUp and postDown by the mode.
allowed_ips_of : Ipv6Mode → Text
allowed_ips_of ipv6_mode_off = codes "0.0.0.0/0"
allowed_ips_of _ = codes "0.0.0.0/0, ::/0"

post_up_of : Ipv6Mode → Text
post_up_of ipv6_mode_kill = codes "ip6tables -I OUTPUT ! -o %i -j REJECT"
post_up_of _ = []

post_down_of : Ipv6Mode → Text
post_down_of ipv6_mode_kill = codes "ip6tables -D OUTPUT ! -o %i -j REJECT"
post_down_of _ = []

unfoldable pub template_config :
    PiaWgClient → GeneratorConfig → AddKeyResult → Text → Text → TemplateConfig
unfolding allowed_ips_of post_up_of post_down_of
template_config pia p key dns privatekey = record {
  private_key = privatekey;
  public_key = key.server_key;
  endpoint = key.server_ip;
  endpoint_port = key.server_port;
  dns = dns;
  address = key.peer_ip;
  allowed_ips = allowed_ips_of p.ipv6_mode;
  persistent_keepalive = codes "25";
  server_common_name = if p.server_name then pia.get_metadata_server_for_region.cn else [];
  post_up = post_up_of p.ipv6_mode;
  post_down = post_down_of p.ipv6_mode;
}

pub data Generation : Type 0 where
  generated : GenerateResult → Generation
  not_generated : GenerateError → Generation

-- `DNSServers[0]`, empty where there is none: both are the same error.
first_dns : List Text → Text
first_dns [] = []
first_dns (d ∷ ds) = d

-- generateConfig, with the result of GenerateWithMetadata around it.
unfoldable pub generate_config : PiaWgClient → GeneratorConfig → AddKeyResult → Text → Generation
unfolding first_dns
generate_config pia p key privatekey =
    if not (ltb_ℤ (pos 0) key.server_port)
    then not_generated invalid_server_port
    else if is_empty (trim_space key.server_ip)
    then not_generated invalid_server_ip
    else if is_empty (trim_space (first_dns key.dns_servers))
    then not_generated no_dns_servers
    else generated record {
      config = execute (template_config pia p key (first_dns key.dns_servers) privatekey);
      key = key;
    }

-- generateKeys, by what wgtypes would make.
unfoldable pub generate_keys : GeneratorConfig → Answer (Text × Text) → Answer (Text × Text)
generate_keys p made =
    if not (is_empty p.privatekey) && not (is_empty p.publickey)
    then ok (p.privatekey, p.publickey)
    else made

-- GenerateWithMetadata behind AddKey.
unfoldable pub after_add_key :
    PiaWgClient → GeneratorConfig → Text → Answer AddKeyResult → Generation
after_add_key pia p privatekey (failed e) = not_generated (add_key_error e)
after_add_key pia p privatekey (ok key) =
    if not (is_empty key.status) && not (text_eq key.status (codes "OK"))
    then not_generated (non_ok_status key.status)
    else generate_config pia p key privatekey

unfoldable pub after_keys : PiaWgClient → GeneratorConfig → Text → Answer (Text × Text) → Generation
after_keys pia p token (failed e) = not_generated (key_error e)
after_keys pia p token (ok (privatekey, publickey)) =
    after_add_key pia p privatekey (pia.add_key token publickey)

unfoldable pub after_token :
    PiaWgClient → GeneratorConfig → Answer (Text × Text) → Answer Text → Generation
after_token pia p made (failed e) = not_generated (token_error e)
after_token pia p made (ok token) = after_keys pia p token (generate_keys p made)

-- GenerateWithMetadata
unfoldable pub generate_with_metadata :
    PiaWgClient → GeneratorConfig → Answer (Text × Text) → Generation
generate_with_metadata pia p made = after_token pia p made pia.get_token
