-- ===== src/Config/System.antt =====
-- What src/config.c asks of the system: the resolver, the address reader, the environment and
-- files. They are the parameters of the parsers.
use wireguard_tools.Containers.{Family, Sockaddr}
use wireguard_tools.Prelude.{ℕ, ◌<◌, ◌≡◌, Bool, Bytes, IsBytes, length, Option, some}

-- A `struct addrinfo` of a successful lookup.
pub record AddrInfo : Type 0 where
  pub ai_family : Family
  pub ai_addrlen : ℕ
  pub ai_addr : Sockaddr

-- The answers of `getaddrinfo`: those that `parse_endpoint` takes for permanent, and any other.
pub data Answer : Type 0 where
  resolved : AddrInfo → Answer
  eai_noname eai_fail eai_nodata eai_other : Answer

-- A file that can be opened: its bytes, and whether reading past them is an error or the end.
pub record File : Type 0 where
  pub content : Bytes
  pub read_error : Bool

pub record System : Type 0 where
  -- `getaddrinfo(NULL, service)` with AI_PASSIVE
  pub lookup_port : Bytes → Answer
  -- `getaddrinfo(host, service)` at each attempt, counted from 0
  pub lookup : ℕ → Bytes → Bytes → Answer
  -- how many attempts are followed before the run is `waiting`
  pub attempts : ℕ
  -- `getenv("WG_ENDPOINT_RESOLUTION_RETRIES")`
  pub retries : Option Bytes
  -- `inet_pton` for AF_INET and AF_INET6
  pub pton4 : Bytes → Option Bytes
  pub pton6 : Bytes → Option Bytes
  -- `fopen(path, "r")`
  pub open_file : Bytes → Option File

-- What the manual pages promise: addresses of 4 and 16 bytes, ports of 16 bits, and
-- files of bytes.
pub record IsSystem (sys : System) : Type 0 where
  pub pton4_len : (s a : Bytes) → sys.pton4 s ≡ some a → (length a ≡ 4) × IsBytes a
  pub pton6_len : (s a : Bytes) → sys.pton6 s ≡ some a → (length a ≡ 16) × IsBytes a
  pub port_lt : (s : Bytes) (r : AddrInfo) → sys.lookup_port s ≡ resolved r → r.ai_addr.port < 65536
  pub file_bytes : (path : Bytes) (f : File) → sys.open_file path ≡ some f → IsBytes f.content
