-- ===== src/Docker/Sockets.antt =====
-- dockerEndpoint (main.go) for one host and different socket paths: whether it finds an endpoint does
-- not depend on the path.
use pia_wg_config_generator.Base.{true, ◌||◌, [], ◌∷◌, ◌≡◌, refl, inl, inr, Bool-cases}
use pia_wg_config_generator.Base.Text.{
  Text, codes, is_empty, trim_space, is_space, has_prefix, trim_prefix,
}
use pia_wg_config_generator.Docker.{
  Client, unix_socket, target, no_target, DockerError, socket_of, docker_endpoint,
}

found-ne-none : (c : Client) (url : Text) (e : DockerError) → target c url ≡ no_target e → ⊥
found-ne-none c url e h = cc

-- Where a host has no endpoint at one path, it has none at another.
pub docker_endpoint-no_target :
    (host path other : Text) (e : DockerError)
    → docker_endpoint host path ≡ no_target e
    → docker_endpoint host other ≡ no_target e
unfolding docker_endpoint
docker_endpoint-no_target untrimmed path other e h =
    let host = trim_space untrimmed in
    elim (Bool-cases (is_empty host)) [
      | inl blank ↦
          absurd
            (found-ne-none (unix_socket (socket_of path)) (codes "http://docker") e (rw blank at h))
      | inr given ↦ elim (Bool-cases (has_prefix host (codes "unix://"))) [
        | inl unix ↦ absurd (
            found-ne-none (unix_socket (trim_prefix host (codes "unix://"))) (codes "http://docker")
              e (rw (given, unix) at h))
        | inr not_unix ↦
            elim (Bool-cases
              (has_prefix host (codes "tcp://") || has_prefix host (codes "http://"))) [
                | inl plain ↦ rw (given, not_unix, plain) (rw (given, not_unix, plain) at h)
                | inr unknown ↦ rw (given, not_unix, unknown) (rw (given, not_unix, unknown) at h)
              ]
      ]
    ]

-- Without a host it is the socket.
pub docker_endpoint_blank :
    (host path : Text)
    → is_empty host ≡ true
    → (c : Client) × (url : Text) × (docker_endpoint host path ≡ target c url)
unfolding docker_endpoint trim_space is_space
docker_endpoint_blank [] path h = (unix_socket (socket_of path), codes "http://docker", refl)
docker_endpoint_blank (c ∷ host) path h = absurd (cc)
