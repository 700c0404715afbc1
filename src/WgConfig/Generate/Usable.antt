-- ===== src/WgConfig/Generate/Usable.antt =====
-- What a generation that succeeds has checked (pia/wg.go).
use pia_wg_config_generator.Base.{
  true, false, not, ◌&&◌, List, [], ◌∷◌, ◌≡◌, ◌≢◌, ◌⊎◌, refl, sym, ap, inl, inr, Bool-cases,
}
use pia_wg_config_generator.Base.Int.{pos, ltb_ℤ, ◌<ℤ◌, ltb→lt_ℤ}
use pia_wg_config_generator.Base.Text.{Text, codes, text_eq, text_eq_iff, is_empty, trim_space}
use pia_wg_config_generator.Api.{Answer, ok, failed, AddKeyResult, GenerateResult}
use pia_wg_config_generator.WgConfig.Generate.{
  PiaWgClient, GeneratorConfig, GenerateError, generated, not_generated, first_dns, generate_config,
  generate_keys, after_add_key, after_keys, after_token, generate_with_metadata, execute,
  template_config,
}

-- An answer of AddKey that makes a config: it says OK or nothing, with a port, an address and a
-- first DNS server that are not blank.
pub record IsUsable (key : AddKeyResult) (dns : Text) : Type 0 where
  pub status : (key.status ≡ []) ⊎ (key.status ≡ codes "OK")
  pub port : pos 0 <ℤ key.server_port
  pub ip : trim_space key.server_ip ≢ []
  pub others : List Text
  pub servers : key.dns_servers ≡ dns ∷ others
  pub dns_given : trim_space dns ≢ []

-- How a generation came about: the token, the key pair registered with it, the answer to that, and
-- the config written from it.
pub record IsMade (pia : PiaWgClient) (p : GeneratorConfig) (made : Answer (Text × Text))
    (r : GenerateResult) : Type 0 where
  pub token : Text
  pub privatekey : Text
  pub publickey : Text
  pub dns : Text
  pub has_token : pia.get_token ≡ ok token
  pub has_keys : generate_keys p made ≡ ok (privatekey, publickey)
  pub has_answer : pia.add_key token publickey ≡ ok r.key
  pub usable : IsUsable r.key dns
  pub config : r.config ≡ execute (template_config pia p r.key dns privatekey)

not_empty : (t : Text) → is_empty t ≡ false → t ≢ []
not_empty [] h = absurd (cc)
not_empty (x ∷ t) h = λ e. cc

empty : (t : Text) → is_empty t ≡ true → t ≡ []
empty [] h = refl
empty (x ∷ t) h = absurd (cc)

generated-injective : {r q : GenerateResult} → generated r ≡ generated q → r ≡ q
generated-injective h = cc

-- The head of the DNS servers is there if it is not blank.
dns_of :
    (servers : List Text)
    → is_empty (trim_space (first_dns servers)) ≡ false
    → (others : List Text) × (servers ≡ first_dns servers ∷ others)
unfolding first_dns trim_space
dns_of [] h = absurd (cc)
dns_of (d ∷ ds) h = (ds, refl)

record IsConfigured (pia : PiaWgClient) (p : GeneratorConfig) (key : AddKeyResult)
    (privatekey : Text) (r : GenerateResult) : Type 0 where
  port : pos 0 <ℤ key.server_port
  ip : trim_space key.server_ip ≢ []
  others : List Text
  servers : key.dns_servers ≡ first_dns key.dns_servers ∷ others
  dns_given : trim_space (first_dns key.dns_servers) ≢ []
  same_key : r.key ≡ key
  config : r.config ≡ execute (template_config pia p key (first_dns key.dns_servers) privatekey)

generate_config-IsConfigured :
    (pia : PiaWgClient) (p : GeneratorConfig) (key : AddKeyResult) (privatekey : Text)
    (r : GenerateResult)
    → generate_config pia p key privatekey ≡ generated r
    → IsConfigured pia p key privatekey r
unfolding generate_config
generate_config-IsConfigured pia p key privatekey r h =
    elim (Bool-cases (ltb_ℤ (pos 0) key.server_port)) [
      | inr no_port ↦ absurd (refused (rw no_port at h))
      | inl port ↦ elim (Bool-cases (is_empty (trim_space key.server_ip))) [
        | inl no_ip ↦ absurd (refused (rw (port, no_ip) at h))
        | inr ip ↦ elim (Bool-cases (is_empty (trim_space (first_dns key.dns_servers)))) [
          | inl no_dns ↦ absurd (refused (rw (port, ip, no_dns) at h))
          | inr dns ↦
              let same = generated-injective (rw (port, ip, dns) at h) in
              let (others, servers) = dns_of key.dns_servers dns in
              record {
                port = ltb→lt_ℤ (pos 0) key.server_port port;
                ip = not_empty (trim_space key.server_ip) ip;
                others = others;
                servers = servers;
                dns_given = not_empty (trim_space (first_dns key.dns_servers)) dns;
                same_key = sym (ap (λ (x : GenerateResult). x.key) same);
                config = sym (ap (λ (x : GenerateResult). x.config) same);
              }
        ]
      ]
    ]
  where
    refused : {e : GenerateError} → not_generated e ≡ generated r → ⊥
    refused e = cc

status_of_ok :
    (status : Text)
    → (not (is_empty status) && not (text_eq status (codes "OK"))) ≡ false
    → (status ≡ []) ⊎ (status ≡ codes "OK")
status_of_ok status h = elim (Bool-cases (is_empty status)) [
  | inl e ↦ inl (empty status e)
  | inr e ↦ elim (Bool-cases (text_eq status (codes "OK"))) [
    | inl q ↦ inr ((text_eq_iff status (codes "OK")).0 q)
    | inr q ↦ absurd (true-ne-false (rw (e, q) at h))
  ]
]
  where
    true-ne-false : true ≡ false → ⊥
    true-ne-false e = cc

-- What is left once a key pair is there.
record IsAnswered (pia : PiaWgClient) (p : GeneratorConfig) (answer : Answer AddKeyResult)
    (privatekey : Text) (r : GenerateResult) : Type 0 where
  has_answer : answer ≡ ok r.key
  usable : IsUsable r.key (first_dns r.key.dns_servers)
  config : r.config ≡ execute (template_config pia p r.key (first_dns r.key.dns_servers) privatekey)

answered :
    (pia : PiaWgClient) (p : GeneratorConfig) (key : AddKeyResult) (privatekey : Text)
    (r : GenerateResult)
    → (key.status ≡ []) ⊎ (key.status ≡ codes "OK")
    → IsConfigured pia p key privatekey r
    → IsAnswered pia p (ok key) privatekey r
answered pia p key privatekey r status c = record {
  has_answer = ap (λ (k : AddKeyResult). ok k) (sym c.same_key);
  usable = rw c.same_key (record {
    status = status;
    port = c.port;
    ip = c.ip;
    others = c.others;
    servers = c.servers;
    dns_given = c.dns_given;
  });
  config = rw c.same_key c.config;
}

after_add_key-IsAnswered :
    (pia : PiaWgClient) (p : GeneratorConfig) (privatekey : Text) (answer : Answer AddKeyResult)
    (r : GenerateResult)
    → after_add_key pia p privatekey answer ≡ generated r
    → IsAnswered pia p answer privatekey r
unfolding after_add_key
after_add_key-IsAnswered pia p privatekey (failed e) r h = absurd (cc)
after_add_key-IsAnswered pia p privatekey (ok key) r h =
    elim (Bool-cases (not (is_empty key.status) && not (text_eq key.status (codes "OK")))) [
      | inl bad ↦ absurd (refused (rw bad at h))
      | inr good ↦
          answered pia p key privatekey r (status_of_ok key.status good)
            (generate_config-IsConfigured pia p key privatekey r (rw good at h))
    ]
  where
    refused : {e : GenerateError} → not_generated e ≡ generated r → ⊥
    refused e = cc

after_keys-IsMade :
    (pia : PiaWgClient) (p : GeneratorConfig) (made keys : Answer (Text × Text)) (token : Text)
    (r : GenerateResult)
    → pia.get_token ≡ ok token
    → generate_keys p made ≡ keys
    → after_keys pia p token keys ≡ generated r
    → IsMade pia p made r
unfolding after_keys
after_keys-IsMade pia p made (failed e) token r t k h = absurd (cc)
after_keys-IsMade pia p made (ok (privatekey, publickey)) token r t k h =
    let a = after_add_key-IsAnswered pia p privatekey (pia.add_key token publickey) r h in
    record {
      token = token;
      privatekey = privatekey;
      publickey = publickey;
      dns = first_dns r.key.dns_servers;
      has_token = t;
      has_keys = k;
      has_answer = a.has_answer;
      usable = a.usable;
      config = a.config;
    }

after_token-IsMade :
    (pia : PiaWgClient) (p : GeneratorConfig) (made : Answer (Text × Text)) (t : Answer Text)
    (r : GenerateResult)
    → pia.get_token ≡ t
    → after_token pia p made t ≡ generated r
    → IsMade pia p made r
unfolding after_token
after_token-IsMade pia p made (failed e) r k h = absurd (cc)
after_token-IsMade pia p made (ok token) r k h =
    after_keys-IsMade pia p made (generate_keys p made) token r k refl h

-- When GenerateWithMetadata returns a result, it has got a token, a key pair, and for the token and
-- the public key an answer that it returns, which says OK or nothing, with a positive port, an
-- address and a first DNS server that are not blank; the config is the template filled from that
-- answer and the private key.
pub generate_with_metadata-IsMade :
    (pia : PiaWgClient) (p : GeneratorConfig) (made : Answer (Text × Text)) (r : GenerateResult)
    → generate_with_metadata pia p made ≡ generated r
    → IsMade pia p made r
unfolding generate_with_metadata
generate_with_metadata-IsMade pia p made r h = after_token-IsMade pia p made pia.get_token r refl h
