-- ===== src/Docker/Endpoint.antt =====
-- Which endpoints a Docker host gives (main.go, dockerEndpoint).
use pia_wg_config_generator.Base.{
  Bool, true, false, ◌||◌, [], ◌∷◌, ◌++◌, ◌≡◌, ◌≢◌, ◌⊎◌, refl, inl, inr, Bool-cases,
}
use pia_wg_config_generator.Base.Text.{Text, codes, is_empty, trim_space, has_prefix, trim_prefix}
use pia_wg_config_generator.Docker.{
  Client, unix_socket, tcp, target, no_target, DockerError, has_slash_or_blank, tcp_target,
  address_of, socket_of, docker_endpoint,
}

-- An endpoint that dockerEndpoint may choose for a host: a Unix socket, or a TCP address that is
-- not empty and has no slash or blank, for a host that says tcp or http.
pub data IsPlain (host : Text) : Client → Text → Type 0 where
  socket : (path : Text) → IsPlain host (unix_socket path) (codes "http://docker")
  address :
      (addr : Text)
      → (has_prefix host (codes "tcp://") ≡ true) ⊎ (has_prefix host (codes "http://") ≡ true)
      → addr ≢ []
      → has_slash_or_blank addr ≡ false
      → IsPlain host tcp (codes "http://" ++ addr)

tcp_target-IsPlain :
    (host addr : Text) (c : Client) (url : Text)
    → (has_prefix host (codes "tcp://") ≡ true) ⊎ (has_prefix host (codes "http://") ≡ true)
    → tcp_target host addr ≡ target c url
    → IsPlain host c url
unfolding tcp_target
tcp_target-IsPlain host [] c url p h = absurd (cc)
tcp_target-IsPlain host (x ∷ addr) c url p h = elim (Bool-cases (has_slash_or_blank (x ∷ addr))) [
  | inl bad ↦ absurd (refused (rw bad at h))
  | inr good ↦ moved good (rw good at h)
]
  where
    refused : {e : DockerError} → no_target e ≡ target c url → ⊥
    refused e = cc

    moved :
        has_slash_or_blank (x ∷ addr) ≡ false
        → target tcp (codes "http://" ++ (x ∷ addr)) ≡ target c url
        → IsPlain host c url
    moved good e =
        let same_client : c ≡ tcp = cc in
        let same_url : url ≡ codes "http://" ++ (x ∷ addr) = cc in
        rw (same_client, same_url) (address (x ∷ addr) p (λ n. cc) good)

socket-IsPlain :
    (host path : Text) (c : Client) (url : Text)
    → target (unix_socket path) (codes "http://docker") ≡ target c url
    → IsPlain host c url
socket-IsPlain host path c url h =
    let same_client : c ≡ unix_socket path = cc in
    let same_url : url ≡ codes "http://docker" = cc in rw (same_client, same_url) (socket path)

or_true : (a b : Bool) → a || b ≡ true → (a ≡ true) ⊎ (b ≡ true)
or_true true b h = inl refl
or_true false b h = inr h

-- When dockerEndpoint chooses an endpoint, it is a Unix socket, or plain HTTP to an address that is
-- not empty and has no slash or blank, and then the host starts with tcp:// or http://. So a host
-- that says https:// or ssh:// is never reached over plain text.
pub docker_endpoint-IsPlain :
    (host socket_path : Text) (c : Client) (url : Text)
    → docker_endpoint host socket_path ≡ target c url
    → IsPlain (trim_space host) c url
unfolding docker_endpoint
docker_endpoint-IsPlain untrimmed socket_path c url h =
    let host = trim_space untrimmed in
    elim (Bool-cases (is_empty host)) [
      | inl blank ↦ socket-IsPlain host (socket_of socket_path) c url (rw blank at h)
      | inr given ↦ elim (Bool-cases (has_prefix host (codes "unix://"))) [
        | inl unix ↦
            socket-IsPlain host (trim_prefix host (codes "unix://")) c url (rw (given, unix) at h)
        | inr not_unix ↦
            elim (Bool-cases
              (has_prefix host (codes "tcp://") || has_prefix host (codes "http://"))) [
                | inl plain ↦
                    tcp_target-IsPlain host (address_of host) c url (or_true _ _ plain)
                      (rw (given, not_unix, plain) at h)
                | inr other ↦ absurd (refused (rw (given, not_unix, other) at h))
              ]
      ]
    ]
  where
    refused : {e : DockerError} → no_target e ≡ target c url → ⊥
    refused e = cc
