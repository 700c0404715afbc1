-- ===== src/Api.antt =====
-- What PIA's API returns (pia/pia.go, AddKeyResult; pia/wg.go, GenerateResult).
pub mod Requests
use pia_wg_config_generator.Base.{List}
use pia_wg_config_generator.Base.Int.{ℤ}
use pia_wg_config_generator.Base.Text.{Text}

-- A value, or the text of an error.
pub data Answer {ℓ} (A : Type ℓ) : Type ℓ where
  ok : A → Answer A
  failed : Text → Answer A

pub record AddKeyResult : Type 0 where
  pub status : Text
  pub server_key : Text
  pub server_port : ℤ  -- int
  pub server_ip : Text
  pub server_vip : Text
  pub gateway : Text
  pub peer_ip : Text
  pub peer_pubkey : Text
  pub dns_servers : List Text

pub record GenerateResult : Type 0 where
  pub config : Text
  pub key : AddKeyResult
