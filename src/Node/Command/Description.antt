-- ===== src/Node/Command/Description.antt =====
-- What node/src/command.rs says of the program: `impl SubstrateCli for Cli`, `load_spec` apart.
use create_chain_substrate_n.Common.{ℕ, String}

-- The texts that the build sets: `env!`.
pub record BuildEnv : Type 0 where
  pub substrate_cli_impl_version : String
  pub cargo_pkg_description : String
  pub cargo_pkg_authors : String

pub record SubstrateCli : Type 0 where
  pub impl_name : String
  pub impl_version : String
  pub description : String
  pub author : String
  pub support_url : String
  pub copyright_start_year : ℕ

abbrev pub substrate_cli : BuildEnv → SubstrateCli
substrate_cli env = record {
  impl_name = "Substrate Node";
  impl_version = env.substrate_cli_impl_version;
  description = env.cargo_pkg_description;
  author = env.cargo_pkg_authors;
  support_url = "support.anonymous.an";
  copyright_start_year = 2017;
}
