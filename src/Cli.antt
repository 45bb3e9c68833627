-- ===== src/Cli.antt =====
-- src/cli.rs: the options of the command line, and what the node derives from them. The parsing of the
-- arguments is the crate `clap`.
pub mod Addresses
use irn.Base.{ℕ, String, Option, none, some, List, [], ◌∷◌, map, nat_eq, if◌then◌else◌}
use irn.Primitives.Keys
use irn.Primitives.Keys.{Keypair, Pubkey}
use irn.Rpc.{Protocol, Multiaddr}

pub data IpAddr : Type 0 where
  v4 v6 : ℕ → IpAddr

pub record SocketAddr : Type 0 where
  pub ip : IpAddr
  pub port : ℕ

pub record CliOpts : Type 0 where
  pub network_id : String
  pub secret : Keypair
  pub verbose : ℕ
  pub peer : List SocketAddr
  pub addr : List IpAddr
  pub port : ℕ
  pub rpc : Option ℕ
  pub data_dir : String

abbrev pub ip_protocol : IpAddr → Protocol
ip_protocol (IpAddr.v4 a) = Protocol.ip4 a
ip_protocol (IpAddr.v6 a) = Protocol.ip6 a

unfoldable pub listen_multiaddrs : CliOpts → List Multiaddr
listen_multiaddrs o = map (λ a. ip_protocol a ∷ Protocol.tcp o.port ∷ []) o.addr

unfoldable pub peers : CliOpts → List Multiaddr
peers o = map (λ a. ip_protocol a.ip ∷ Protocol.tcp a.port ∷ []) o.peer

unfoldable pub identity : CliOpts → Pubkey
identity o = Keys.identity o.secret

abbrev pub endpoint : ℕ → IpAddr → SocketAddr
endpoint port a = record { ip = a; port = port }

unfoldable pub rpc_endpoints : CliOpts → Option (List SocketAddr)
rpc_endpoints o = elim o.rpc [ none ↦ none | some port ↦ some (map (endpoint port) o.addr) ]

pub data Level : Type 0 where
  info debug trace : Level

-- The level that `main` logs at.
unfoldable pub log_level : ℕ → Level
log_level verbose =
    if nat_eq verbose 1 then Level.debug else if nat_eq verbose 2 then Level.trace else Level.info
