-- ===== src/Config/Line/Safe.antt =====
-- src/config.c: how the parsers of the values end.
use wireguard_tools.Config.AllowedIps.{
  parse_ip, parse_cidr, parse_entry, parse_entries, parse_allowedips, unsigned, split_mask,
  set_replace, add_allowedip, is_incremental,
}
use wireguard_tools.Config.Endpoint.{
  lookup_from, less_retries, next_timeout, lookup_endpoint, parse_endpoint, endpoint_parts,
  first_timeout,
}
use wireguard_tools.Config.Keys.{parse_key}
use wireguard_tools.Config.Line.Keys.{
  DeviceKey, PeerKey, device_keys, peer_keys, find_key, set_device_key, set_peer_key,
}
use wireguard_tools.Config.Line.Keys
use wireguard_tools.Config.Numbers.{
  is_empty, parse_port, parse_fwmark, parse_persistent_keepalive, parse_ws_millis,
  parse_dns_retries,
}
use wireguard_tools.Config.Outcome.{Outcome, done, fail, exited, waiting, unreachable, fault, ◌>>=◌}
use wireguard_tools.Config.System.{System}
use wireguard_tools.Config.WsUrl.{is_ws_url, ws_url_split, host_port, snprintf, parse_ws_endpoint}
use wireguard_tools.Config.WsValues.{
  parse_ws_mode, parse_ws_target, parse_ws_bool, parse_ws_str, parse_ws_listen,
}
use wireguard_tools.Containers.{Peer, Device, Family}
use wireguard_tools.Libc.Text.{split_all}
use wireguard_tools.Prelude.{
  ℕ, zero, suc, ◌+◌, ◌≡◌, refl, arith, true, false, Option, List, [], ◌∷◌, Bytes, Bool-cases,
  Option-cases, inl, inr, if◌then◌else◌,
}

-- Anything but a NULL pointer that is followed.
abbrev pub IsSafe {ℓ} : {A : Type ℓ} → Outcome A → Type 0
IsSafe fault = ⊥
IsSafe _ = Unit

pub bind-IsSafe {ℓ κ} :
    {A : Type ℓ} {B : Type κ} (m : Outcome A) (f : A → Outcome B)
    → IsSafe m
    → ((a : A) → IsSafe (f a))
    → IsSafe (m >>= f)
bind-IsSafe (done a) f h k = k a
bind-IsSafe fail f h k = tt
bind-IsSafe exited f h k = tt
bind-IsSafe waiting f h k = tt
bind-IsSafe unreachable f h k = tt
bind-IsSafe fault f h k = elim h [ ]

-- The same, where the next step is safe after what was returned.
pub bind-IsSafe_eq {ℓ κ} :
    {A : Type ℓ} {B : Type κ} (m : Outcome A) (f : A → Outcome B)
    → IsSafe m
    → ((a : A) → m ≡ done a → IsSafe (f a))
    → IsSafe (m >>= f)
bind-IsSafe_eq (done a) f h k = k a refl
bind-IsSafe_eq fail f h k = tt
bind-IsSafe_eq exited f h k = tt
bind-IsSafe_eq waiting f h k = tt
bind-IsSafe_eq unreachable f h k = tt
bind-IsSafe_eq fault f h k = elim h [ ]

parse_port-IsSafe : (sys : System) (v : Bytes) → IsSafe (parse_port sys v)
unfolding parse_port
parse_port-IsSafe sys v = ground arith

parse_fwmark-IsSafe : (v : Bytes) → IsSafe (parse_fwmark v)
unfolding parse_fwmark
parse_fwmark-IsSafe v = ground arith

keepalive-IsSafe : (v : Bytes) → IsSafe (parse_persistent_keepalive v)
unfolding parse_persistent_keepalive
keepalive-IsSafe v = ground arith

millis-IsSafe : (v : Bytes) → IsSafe (parse_ws_millis v)
unfolding parse_ws_millis
millis-IsSafe v = ground arith

pub parse_key-IsSafe : (old v : Bytes) → IsSafe (parse_key old v)
unfolding parse_key
parse_key-IsSafe old v = ground arith

retries-IsSafe : (sys : System) → IsSafe (parse_dns_retries sys)
unfolding parse_dns_retries
retries-IsSafe sys = ground arith

lookup_from-IsSafe :
    (sys : System) (host port : Bytes) (more k : ℕ) (retries : Option ℕ) (t : ℕ)
    → IsSafe (lookup_from sys host port more k retries t).answer
unfolding lookup_from
lookup_from-IsSafe sys host port zero k retries t = tt
lookup_from-IsSafe sys host port (suc more) k retries t =
    ground
      (arith, lookup_from-IsSafe sys host port more (k + 1) (less_retries retries) (next_timeout t))

lookup_endpoint-IsSafe :
    (sys : System) (retries : Option ℕ) (v : Bytes) → IsSafe (lookup_endpoint sys retries v)
unfolding lookup_endpoint
lookup_endpoint-IsSafe sys retries v = elim (Bool-cases (is_empty v)) [
  | inl empty ↦ rw empty tt
  | inr text ↦ elim (Option-cases (endpoint_parts v)) [
    | inl out ↦ rw (text, out) tt
    | inr ((host, port), parts) ↦
        rw (text, parts)
          (bind-IsSafe (lookup_from sys host port sys.attempts 0 retries first_timeout).answer _
            (lookup_from-IsSafe sys host port sys.attempts 0 retries first_timeout)
            (λ r. ground arith))
  ]
]

parse_endpoint-IsSafe : (sys : System) (v : Bytes) → IsSafe (parse_endpoint sys v)
unfolding parse_endpoint
parse_endpoint-IsSafe sys v =
    bind-IsSafe (parse_dns_retries sys) _ (retries-IsSafe sys) (λ r. lookup_endpoint-IsSafe sys r v)

parse_ws_endpoint-IsSafe :
    (sys : System) (p : Peer) (v : Bytes) → IsSafe (parse_ws_endpoint sys p v)
unfolding parse_ws_endpoint
parse_ws_endpoint-IsSafe sys p v = elim (Option-cases (ws_url_split v 256 16)) [
  | inl out ↦ rw (out, parse_ws_endpoint) tt
  | inr ((host, port), parts) ↦
      rw (parts, parse_ws_endpoint)
        (bind-IsSafe (parse_endpoint sys (snprintf 300 (host_port host port))) _
          (parse_endpoint-IsSafe sys (snprintf 300 (host_port host port))) (λ a. tt))
]

parse_ip-IsSafe : (sys : System) (v : Bytes) → IsSafe (parse_ip sys v)
unfolding parse_ip
parse_ip-IsSafe sys v = ground arith

parse_cidr-IsSafe : (f : Family) (m : Option Bytes) → IsSafe (parse_cidr f m)
unfolding parse_cidr
parse_cidr-IsSafe f m = ground arith

parse_entry-IsSafe : (sys : System) (v : Bytes) → IsSafe (parse_entry sys v)
unfolding parse_entry
parse_entry-IsSafe sys v =
    bind-IsSafe (parse_ip sys (split_mask (unsigned v).0).0) _
      (parse_ip-IsSafe sys (split_mask (unsigned v).0).0)
      (λ x.
        bind-IsSafe (parse_cidr x.0 (split_mask (unsigned v).0).1) _
          (parse_cidr-IsSafe x.0 (split_mask (unsigned v).0).1) (λ c. tt))

parse_entries-IsSafe : (sys : System) (vs : List Bytes) (p : Peer) → IsSafe (parse_entries sys vs p)
unfolding parse_entries
parse_entries-IsSafe sys [] p = tt
parse_entries-IsSafe sys (v ∷ vs) p =
    bind-IsSafe (parse_entry sys v) _ (parse_entry-IsSafe sys v) (λ a.
      parse_entries-IsSafe sys vs
        (add_allowedip a (if is_incremental v then set_replace false p else p)))

pub parse_allowedips-IsSafe :
    (sys : System) (p : Peer) (v : Bytes) → IsSafe (parse_allowedips sys p v)
unfolding parse_allowedips
parse_allowedips-IsSafe sys p v = elim (Bool-cases (is_empty v)) [
  | inl empty ↦ rw empty tt
  | inr more ↦ rw more (parse_entries-IsSafe sys (split_all b',' v) (set_replace true p))
]

pub set_device_key-IsSafe :
    (sys : System) (key : DeviceKey) (v : Bytes) (d : Device) → IsSafe (set_device_key sys key v d)
unfolding set_device_key
set_device_key-IsSafe sys Keys.listen_port v d = bind-IsSafe _ _ (parse_port-IsSafe sys v) (λ n. tt)
set_device_key-IsSafe sys Keys.fwmark v d = bind-IsSafe _ _ (parse_fwmark-IsSafe v) (λ n. tt)
set_device_key-IsSafe sys Keys.private_key v d =
    bind-IsSafe _ _ (parse_key-IsSafe d.private_key v) (λ n. tt)
set_device_key-IsSafe sys Keys.ws_listen v d = unfold parse_ws_listen in ground arith
set_device_key-IsSafe sys _ v d = tt

pub set_peer_key-IsSafe :
    (sys : System) (key : PeerKey) (v : Bytes) (p : Peer) → IsSafe (set_peer_key sys key v p)
unfolding set_peer_key parse_ws_mode parse_ws_target parse_ws_bool parse_ws_str
set_peer_key-IsSafe sys Keys.endpoint v p = elim (Bool-cases (is_ws_url v)) [
  | inl url ↦ rw url (parse_ws_endpoint-IsSafe sys p v)
  | inr plain ↦ rw plain (bind-IsSafe _ _ (parse_endpoint-IsSafe sys v) (λ a. tt))
]
set_peer_key-IsSafe sys Keys.public_key v p =
    bind-IsSafe _ _ (parse_key-IsSafe p.public_key v) (λ k. tt)
set_peer_key-IsSafe sys Keys.allowed_ips v p = parse_allowedips-IsSafe sys p v
set_peer_key-IsSafe sys Keys.persistent_keepalive v p =
    bind-IsSafe _ _ (keepalive-IsSafe v) (λ k. tt)
set_peer_key-IsSafe sys Keys.preshared_key v p =
    bind-IsSafe _ _ (parse_key-IsSafe p.preshared_key v) (λ k. tt)
set_peer_key-IsSafe sys Keys.ws_ping_interval v p = bind-IsSafe _ _ (millis-IsSafe v) (λ k. tt)
set_peer_key-IsSafe sys Keys.ws_backoff_min v p = bind-IsSafe _ _ (millis-IsSafe v) (λ k. tt)
set_peer_key-IsSafe sys Keys.ws_backoff_max v p = bind-IsSafe _ _ (millis-IsSafe v) (λ k. tt)
set_peer_key-IsSafe sys _ v p = ground arith
