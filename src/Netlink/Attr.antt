-- ===== src/Netlink/Attr.antt =====
-- src/ipc-linux.h: the attributes of the messages that are sent and read, and how their callbacks
-- answer. A number is none where `mnl_attr_validate` refuses the attribute, and so is a handshake time
-- of the wrong size. The types that nothing reads are one.
use wireguard_tools.Containers.{Family, Sockaddr}
use wireguard_tools.Prelude.{ℕ, Bool, Option, List, Bytes}

-- WGALLOWEDIP_A_*
pub data IpAttr : Type 0 where
  family : Option Family → IpAttr
  ipaddr : Bytes → IpAttr
  cidr_mask : Option ℕ → IpAttr
  ip_flags : Bool → IpAttr
  ip_other : IpAttr

-- WGPEER_A_*; an endpoint has the length of its payload, and the flags are two bits.
pub data PeerAttr : Type 0 where
  public_key preshared_key : Bytes → PeerAttr
  peer_flags : Bool → Bool → PeerAttr
  endpoint : ℕ → Sockaddr → PeerAttr
  keepalive rx_bytes tx_bytes : Option ℕ → PeerAttr
  last_handshake : Option (ℕ × ℕ) → PeerAttr
  allowedips : List (List IpAttr) → PeerAttr
  peer_other : PeerAttr

-- WGDEVICE_A_*
pub data DeviceAttr : Type 0 where
  ifname : Option Bytes → DeviceAttr
  private_key device_key : Bytes → DeviceAttr
  listen_port fwmark : Option ℕ → DeviceAttr
  replace_peers : DeviceAttr
  peers : List (List PeerAttr) → DeviceAttr
  device_other : DeviceAttr

abbrev pub Message : Type 0
Message = List DeviceAttr

-- MNL_CB_ERROR, MNL_CB_STOP and MNL_CB_OK
pub data Cb : Type 0 where
  error stop ok : Cb
