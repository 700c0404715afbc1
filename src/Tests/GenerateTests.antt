-- ===== src/Tests/GenerateTests.antt =====
-- A config for a concrete answer of PIA.
use pia_wg_config_generator.Base.{true, [], ◌∷◌, ◌≡◌, refl, sym, ap}
use pia_wg_config_generator.Base.Int.{pos}
use pia_wg_config_generator.Base.Text.{Text, codes, text_eq, trim_space, is_space, trim_left}
use pia_wg_config_generator.Base.Text.Decimal.{decimal}
use pia_wg_config_generator.Api.{Answer, ok, AddKeyResult, GenerateResult}
use pia_wg_config_generator.WgConfig.Generate.{
  PiaWgClient, GeneratorConfig, ipv6_mode_off, generated, generate_with_metadata, after_token,
  generate_keys, after_keys, after_add_key, generate_config, execute, template_config,
}
use pia_wg_config_generator.WgConfig.Endpoint.{parse_endpoint}
use pia_wg_config_generator.WgConfig.Endpoint.Scan.{IsOneLine}
use pia_wg_config_generator.WgConfig.Generate.Readback.{parse_endpoint-generate_with_metadata}
use pia_wg_config_generator.WgConfig.Generate.Usable.{IsMade, generate_with_metadata-IsMade}

abbrev pub key : AddKeyResult
key = record {
  status = codes "OK";
  server_key = codes "K";
  server_port = pos 1337;
  server_ip = codes "1.2.3.4";
  server_vip = [];
  gateway = [];
  peer_ip = codes "10.0.0.2";
  peer_pubkey = codes "p";
  dns_servers = codes "10.0.0.3" ∷ [];
}

abbrev pub pia : PiaWgClient
pia = record {
  get_token = ok (codes "token");
  add_key = λ token publickey. ok key;
  get_metadata_server_for_region = record { cn = codes "nl1"; ip = codes "5.6.7.8" };
}

abbrev pub config : GeneratorConfig
config = record { server_name = true; privatekey = []; publickey = []; ipv6_mode = ipv6_mode_off }

abbrev pub pair : Answer (Text × Text)
pair = ok (codes "priv", codes "pub")

abbrev pub result : GenerateResult
result = record {
  config =
      codes
        "[Interface]\nPrivateKey = priv\nAddress = 10.0.0.2\nDNS = 10.0.0.3\n[Peer]\nPublicKey = K\nAllowedIPs = 0.0.0.0/0\nEndpoint = 1.2.3.4:1337\nPersistentKeepalive = 25\n# ServerCommonName = nl1";
  key = key;
}

pub made : generate_with_metadata pia config pair ≡ generated result
unfolding generate_with_metadata after_token generate_keys after_keys after_add_key generate_config
    execute template_config text_eq trim_space is_space decimal
made = refl

generate_with_metadata-IsMade_example : IsMade pia config pair result
generate_with_metadata-IsMade_example = generate_with_metadata-IsMade pia config pair result made

ok-injective : {a b : Text × Text} → ok a ≡ ok b → a ≡ b
ok-injective h = cc

-- The private key of the pair.
private_line :
    (privatekey publickey : Text)
    → generate_keys config pair ≡ ok (privatekey, publickey)
    → IsOneLine privatekey
unfolding generate_keys
private_line privatekey publickey e =
    let same : codes "priv" ≡ privatekey = ap (λ (k : Text × Text). k.0) (ok-injective e) in
    rw (sym same) refl

parse_endpoint-generate_with_metadata_example : parse_endpoint result.config ≡ codes "1.2.3.4:1337"
unfolding generate_keys trim_left is_space decimal
parse_endpoint-generate_with_metadata_example =
    parse_endpoint-generate_with_metadata pia config pair result made private_line record {
      peer_ip = refl;
      dns = (refl, tt);
      server_key = refl;
      server_ip = refl;
      starts = refl;
    }
