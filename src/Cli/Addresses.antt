-- ===== src/Cli/Addresses.antt =====
-- The multiaddresses of the options stand for the socket addresses that were given.
use irn.Base.{◌≡◌, refl, ap, ℕ, Option, none, some, List, [], ◌∷◌, map}
use irn.Cli.{IpAddr, SocketAddr, CliOpts, ip_protocol, listen_multiaddrs, peers, endpoint}
use irn.Rpc.{Protocol, Multiaddr}

-- The socket address that a multiaddress stands for.
abbrev pub socket_addr : Multiaddr → Option SocketAddr
socket_addr (Protocol.ip4 a ∷ Protocol.tcp p ∷ []) = some (record { ip = IpAddr.v4 a; port = p })
socket_addr (Protocol.ip6 a ∷ Protocol.tcp p ∷ []) = some (record { ip = IpAddr.v6 a; port = p })
socket_addr m = none

read_back :
    (ip : IpAddr) (p : ℕ)
    → socket_addr (ip_protocol ip ∷ Protocol.tcp p ∷ []) ≡ some (record { ip = ip; port = p })
read_back (IpAddr.v4 a) p = refl
read_back (IpAddr.v6 a) p = refl

map_read :
    {A : Type 0} (ip : A → IpAddr) (port : A → ℕ) (xs : List A)
    → map socket_addr (map (λ a. ip_protocol (ip a) ∷ Protocol.tcp (port a) ∷ []) xs)
      ≡ map (λ a. some (record { ip = ip a; port = port a })) xs
map_read ip port [] = refl
map_read ip port (a ∷ xs) =
    rw (read_back (ip a) (port a))
      (ap (◌∷◌ (some (record { ip = ip a; port = port a }))) (map_read ip port xs))

-- Read back as socket addresses, the bootstrap multiaddresses are the peers of the options, and the
-- listen multiaddresses are the addresses of the options at the port.
pub socket_addr-peers :
    (o : CliOpts)
    → (map socket_addr (peers o) ≡ map some o.peer)
      × (map socket_addr (listen_multiaddrs o) ≡ map (λ a. some (endpoint o.port a)) o.addr)
unfolding peers listen_multiaddrs
socket_addr-peers o =
    (map_read (λ a. a.ip) (λ a. a.port) o.peer, map_read (λ a. a) (λ a. o.port) o.addr)
