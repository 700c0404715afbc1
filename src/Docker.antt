-- ===== src/Docker.antt =====
-- The Docker endpoint and the restart of a container (main.go, dockerEndpoint and
-- restartDockerContainerVia). The HTTP reply of Docker is an argument.
pub mod Endpoint
pub mod Sockets
use pia_wg_config_generator.Base.{
  ℕ, Bool, true, false, ◌||◌, Option, none, some, List, [], ◌∷◌, ◌++◌, ◌==◌, if◌then◌else◌,
}
use pia_wg_config_generator.Base.Text.{
  Text, codes, is_empty, trim_space, has_prefix, trim_prefix, trim_right_byte,
}

-- The client: over a Unix socket, or plain TCP.
pub data Client : Type 0 where
  unix_socket : Text → Client
  tcp : Client

pub data DockerError : Type 0 where
  invalid_host unsupported_host : Text → DockerError
  container_empty : DockerError
  bad_request request_failed : Text → DockerError
  restart_failed : ℕ → Text → DockerError

pub data Target : Type 0 where
  target : Client → Text → Target
  no_target : DockerError → Target

-- defaultDockerSocket
abbrev pub default_docker_socket : Text
default_docker_socket = codes "/var/run/docker.sock"

-- strings.ContainsAny(addr, "/ ")
unfoldable pub has_slash_or_blank : Text → Bool
has_slash_or_blank [] = false
has_slash_or_blank (c ∷ cs) = c == b'/' || c == b' ' || has_slash_or_blank cs

tcp_target : Text → Text → Target
tcp_target host addr =
    if is_empty addr || has_slash_or_blank addr
    then no_target (invalid_host host)
    else target tcp (codes "http://" ++ addr)

-- The address of a tcp:// or http:// host.
unfoldable pub address_of : Text → Text
address_of host =
    trim_right_byte b'/' (trim_prefix (trim_prefix host (codes "tcp://")) (codes "http://"))

socket_of : Text → Text
socket_of socket_path =
    if is_empty (trim_space socket_path) then default_docker_socket else socket_path

-- dockerEndpoint
unfoldable pub docker_endpoint : Text → Text → Target
unfolding tcp_target socket_of
docker_endpoint untrimmed socket_path =
    let host = trim_space untrimmed in
    if is_empty host
    then target (unix_socket (socket_of socket_path)) (codes "http://docker")
    else if has_prefix host (codes "unix://")
    then target (unix_socket (trim_prefix host (codes "unix://"))) (codes "http://docker")
    else if has_prefix host (codes "tcp://") || has_prefix host (codes "http://")
    then tcp_target host (address_of host)
    else no_target (unsupported_host host)

-- What Docker answers: the status code, with the body read of it.
pub data DockerReply : Type 0 where
  no_reply : Text → DockerReply
  reply : ℕ → Text → DockerReply

-- http.StatusNoContent
no_content : ℕ
no_content = 204

body_text : Text → Text
body_text b = if is_empty (trim_space b) then codes "<empty>" else trim_space b

judge : DockerReply → Option DockerError
unfolding no_content body_text
judge (no_reply e) = some (request_failed e)
judge (reply code b) = if code == no_content then none else some (restart_failed code (body_text b))

-- restartDockerContainerWithClient; `path_escape` is url.PathEscape, `post` the reply to a POST of
-- the URL, an error of http.NewRequest apart.
unfoldable pub restart_docker_container_with_client :
    (Text → Text) → (Client → Text → DockerReply) → Client → Text → Text → Option DockerError
unfolding judge
restart_docker_container_with_client path_escape post client base_url untrimmed =
    let container = trim_space untrimmed in
    let url =
      trim_right_byte b'/' base_url
      ++ (codes "/containers/" ++ (path_escape container ++ codes "/restart?t=10")) in
    if is_empty container then some container_empty else judge (post client url)

-- restartDockerContainerVia
unfoldable pub restart_docker_container_via :
    (Text → Text) → (Client → Text → DockerReply) → Text → Text → Text → Option DockerError
restart_docker_container_via path_escape post host socket_path container =
    elim (docker_endpoint host socket_path) [
      | no_target e ↦ some e
      | target client base_url ↦
          restart_docker_container_with_client path_escape post client base_url container
    ]
