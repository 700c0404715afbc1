-- ===== src/Tests/DockerTests.antt =====
-- Docker hosts, chosen and refused.
use pia_wg_config_generator.Base.{[], ◌≡◌, refl}
use pia_wg_config_generator.Base.Text.{
  codes, trim_space, is_space, has_prefix, trim_prefix, trim_right_byte,
}
use pia_wg_config_generator.Docker.{
  tcp, target, no_target, unsupported_host, has_slash_or_blank, address_of, docker_endpoint,
}
use pia_wg_config_generator.Docker.Endpoint.{IsPlain, docker_endpoint-IsPlain}

proxy : docker_endpoint (codes " tcp://proxy:2375/") [] ≡ target tcp (codes "http://proxy:2375")
unfolding docker_endpoint address_of has_slash_or_blank trim_space is_space has_prefix trim_prefix
    trim_right_byte
proxy = refl

tls_refused :
    docker_endpoint (codes "https://proxy:2376") []
    ≡ no_target (unsupported_host (codes "https://proxy:2376"))
unfolding docker_endpoint trim_space is_space has_prefix
tls_refused = refl

docker_endpoint-IsPlain_example :
    IsPlain (trim_space (codes " tcp://proxy:2375/")) tcp (codes "http://proxy:2375")
docker_endpoint-IsPlain_example =
    docker_endpoint-IsPlain (codes " tcp://proxy:2375/") [] tcp (codes "http://proxy:2375") proxy
