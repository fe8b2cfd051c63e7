-- ===== src/Mining/Config.antt =====
-- internal/mining/config.go: the configuration of the mining daemon.
use worldland_sdk.Base.{ℕ, String, Bool, true, ◌&&◌, List, [], if◌then◌else◌, ◌==◌, String-eq}
use worldland_sdk.Go.Errors.{Result, ok}

pub record MiningConfig : Type 0 where
  pub enabled : Bool
  pub wallet_address : String
  pub image : String
  pub gpu_device_ids : List String
  pub data_dir : String
  pub chain_id : ℕ
  pub p2p_port : ℕ
  pub http_rpc_port : ℕ
  pub extra_args : List String

unfoldable pub default_mining_config : MiningConfig
default_mining_config = record {
  enabled = true;
  wallet_address = "";
  image = "mingeyom/worldland-mio:latest";
  gpu_device_ids = [];
  data_dir = "/data/worldland";
  chain_id = 10396;
  p2p_port = 30303;
  http_rpc_port = 8545;
  extra_args = [];
}

-- A wallet is optional: both branches accept.
unfoldable pub validate : MiningConfig → Result (Unit {0})
validate c = if c.enabled && c.wallet_address == "" then ok tt else ok tt
