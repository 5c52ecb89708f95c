-- ===== src/Tests/Setup.antt =====
-- A resolver, a file system and configuration files for the tests.
use wireguard_tools.Config.System.{System, IsSystem, AddrInfo, resolved, eai_other}
use wireguard_tools.Containers.{inet}
use wireguard_tools.Prelude.{
  ◌≡◌, arith, true, none, some, List, [], ◌∷◌, ltb, if◌then◌else◌, Bytes, codes, IsBytes, All, all,
  and-true, ltb→lt,
}

abbrev pub listen : AddrInfo
listen = record {
  ai_family = inet;
  ai_addrlen = 16;
  ai_addr = record { family = inet; addr = 0 ∷ 0 ∷ 0 ∷ 0 ∷ []; port = 51820 };
}

abbrev pub remote : AddrInfo
remote = record {
  ai_family = inet;
  ai_addrlen = 16;
  ai_addr = record { family = inet; addr = 192 ∷ 0 ∷ 2 ∷ 1 ∷ []; port = 51820 };
}

-- Every name is that of the one interface and peer; the resolver asks for two more attempts, and then answers.
abbrev pub test_system : System
test_system = record {
  lookup_port = λ s. resolved listen;
  lookup = λ k host port. if ltb k 2 then eai_other else resolved remote;
  attempts = 16;
  retries = none;
  pton4 = λ s. some (10 ∷ 0 ∷ 0 ∷ 0 ∷ []);
  pton6 = λ s. none;
  open_file = λ path. none;
}

pub test_system-IsSystem : IsSystem test_system
test_system-IsSystem = record {
  pton4_len = λ s a e. ground arith;
  pton6_len = λ s a e. absurd cc;
  port_lt = λ s r e. ground arith;
  file_bytes = λ path f e. absurd cc;
}

pub small-IsBytes : (s : Bytes) → all (λ b. ltb b 256) s ≡ true → IsBytes s
small-IsBytes [] e = tt
small-IsBytes (x ∷ s) e =
    let (small, rest) = and-true (ltb x 256) (all (λ b. ltb b 256) s) e in
    (ltb→lt x 256 small, small-IsBytes s rest)

pub lines-IsBytes : (ls : List Bytes) → all (λ s. all (λ b. ltb b 256) s) ls ≡ true → All IsBytes ls
lines-IsBytes [] e = tt
lines-IsBytes (s ∷ ls) e =
    let (this, rest) = and-true (all (λ b. ltb b 256) s) (all (λ s. all (λ b. ltb b 256) s) ls) e in
    (small-IsBytes s this, lines-IsBytes ls rest)

-- The key of the bytes 1 to 32.
abbrev pub test_key : Bytes
test_key =
    1 ∷ 2 ∷ 3 ∷ 4 ∷ 5 ∷ 6 ∷ 7 ∷ 8 ∷ 9 ∷ 10 ∷ 11 ∷ 12 ∷ 13 ∷ 14 ∷ 15 ∷ 16 ∷ 17 ∷ 18 ∷ 19 ∷ 20 ∷ 21
    ∷ 22 ∷ 23 ∷ 24 ∷ 25 ∷ 26 ∷ 27 ∷ 28 ∷ 29 ∷ 30 ∷ 31 ∷ 32 ∷ []

abbrev pub test_key_base64 : Bytes
test_key_base64 = codes "AQIDBAUGBwgJCgsMDQ4PEBESExQVFhcYGRobHB0eHyA="

abbrev pub test_lines : List Bytes
test_lines =
    codes "# a tunnel"
    ∷ codes "[Interface]"
    ∷ codes "ListenPort = 51820"
    ∷ codes "FwMark = 0x2a"
    ∷ codes ""
    ∷ codes "[peer]"
    ∷ codes "PublicKey = AQIDBAUGBwgJCgsMDQ4PEBESExQVFhcYGRobHB0eHyA="
    ∷ codes "AllowedIPs = 10.0.0.0/8, 10.0.0.0/32 # two"
    ∷ codes "Endpoint = vpn.example.com:51820"
    ∷ codes "PersistentKeepalive = 25"
    ∷ []
