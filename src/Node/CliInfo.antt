-- ===== src/Node/CliInfo.antt =====
-- node/src/command.rs: what the command line says of itself. What the build passes in its environment
-- is a parameter.
use substrate_evm_account_ma.Prelude.{ℕ, Bytes, as_bytes}

-- `SUBSTRATE_CLI_IMPL_VERSION`, `CARGO_PKG_DESCRIPTION` and `CARGO_PKG_AUTHORS`
pub record BuildEnv : Type 0 where
  pub substrate_cli_impl_version : Bytes
  pub cargo_pkg_description : Bytes
  pub cargo_pkg_authors : Bytes

-- `SubstrateCli`, less `load_spec`
pub record CliInfo : Type 0 where
  pub impl_name : Bytes
  pub impl_version : Bytes
  pub description : Bytes
  pub author : Bytes
  pub support_url : Bytes
  pub copyright_start_year : ℕ

abbrev pub cli_info : BuildEnv → CliInfo
cli_info env = record {
  impl_name = as_bytes "Substrate Node";
  impl_version = env.substrate_cli_impl_version;
  description = env.cargo_pkg_description;
  author = env.cargo_pkg_authors;
  support_url = as_bytes "support.anonymous.an";
  copyright_start_year = 2017;
}
