-- ===== src/Tests/Netlink.antt =====
-- src/ipc-linux.h on a device of two peers, where a message has room for one allowed IP.
use wireguard_tools.Containers.{Peer, Device, zero_peer, zero_device, inet}
use wireguard_tools.Netlink.Attr
use wireguard_tools.Netlink.Attr.{PeerAttr, DeviceAttr, Message, ok}
use wireguard_tools.Netlink.Get.Calls.{each, each-IsWalk}
use wireguard_tools.Netlink.Get.Lost.{peer_cut_short, parse_peers-drops_rest}
use wireguard_tools.Netlink.Get.Null.{coalesce_peers-follows_null}
use wireguard_tools.Netlink.Get.{
  parse_peers, parse_allowedip, answered, found, kernel_get_device, coalesce_peers,
}
use wireguard_tools.Netlink.RoundTrip.Answer.{carried_device, kernel_get_device-kernel_set_device}
use wireguard_tools.Netlink.RoundTrip.Dump.{taken}
use wireguard_tools.Netlink.Set.Fits.{kernel_set_device-fits}
use wireguard_tools.Netlink.Set.Rounds.{kernel_set_device-ends, has_room}
use wireguard_tools.Netlink.Set.{
  kernel_set_device, waiting, put_device, put_peer, put_peer_head, put_left, put_allowedips,
  put_allowedip, send_from, take_peers, put_peers,
}
use wireguard_tools.Prelude.{
  ℕ, suc, ◌+◌, ◌≡◌, ◌≢◌, refl, arith, Bool, true, false, Option, none, some, List, [], ◌∷◌, all,
  length, leb, replicate, codes,
}
use wireguard_tools.Tests.Config.{net}
use wireguard_tools.Tests.Setup.{remote, test_key}

-- The allowed IPs of a message, of which it has room for one.
abbrev ips_in_peer : List PeerAttr → ℕ
ips_in_peer [] = 0
ips_in_peer (Attr.allowedips ips ∷ attrs) = length ips + ips_in_peer attrs
ips_in_peer (_ ∷ attrs) = ips_in_peer attrs

abbrev ips_in_peers : List (List PeerAttr) → ℕ
ips_in_peers [] = 0
ips_in_peers (p ∷ ps) = ips_in_peer p + ips_in_peers ps

abbrev ips_in : Message → ℕ
ips_in [] = 0
ips_in (Attr.peers ps ∷ attrs) = ips_in_peers ps + ips_in attrs
ips_in (_ ∷ attrs) = ips_in attrs

abbrev one_ip : Message → Bool
one_ip m = leb (ips_in m) 1

abbrev first_peer : Peer
first_peer = record zero_peer {
  public_key = test_key;
  preshared_key = test_key;
  endpoint = remote.ai_addr;
  persistent_keepalive_interval = 25;
  flags = record (zero_peer.flags) {
    has_public_key = true;
    has_preshared_key = true;
    has_keepalive = true;
  };
  allowedips = net 8 ∷ net 32 ∷ [];
}

abbrev second_peer : Peer
second_peer = record zero_peer {
  public_key = replicate 32 7;
  flags = record (zero_peer.flags) { has_public_key = true };
  allowedips = net 24 ∷ [];
}

abbrev two_peers : Device
two_peers = record zero_device {
  name = codes "wg0";
  private_key = test_key;
  listen_port = 51820;
  flags = record (zero_device.flags) { has_private_key = true; has_listen_port = true };
  peers = first_peer ∷ second_peer ∷ [];
}

two_peers-has_room : has_room one_ip two_peers ≡ true
unfolding put_peer put_peer_head put_left put_allowedips put_allowedip put_device
two_peers-has_room = refl

three_messages : length (kernel_set_device 9 one_ip taken two_peers).messages ≡ 3
unfolding kernel_set_device send_from take_peers put_peers put_peer put_peer_head put_left
    put_allowedips put_allowedip put_device
three_messages = refl

kernel_get_device-kernel_set_device_example :
    kernel_get_device each
      (λ k. answered (kernel_set_device 9 one_ip taken two_peers).messages none)
      1
      (codes "wg0")
    ≡ found (carried_device two_peers)
unfolding wireguard_tools.Prelude.equal
kernel_get_device-kernel_set_device_example =
    kernel_get_device-kernel_set_device each each-IsWalk one_ip two_peers 9 0 (codes "wg0")
      (omega arith) refl
      (
        record {
          key = refl;
          shared_key = refl;
          allowedips = ((refl, omega arith, omega arith), ((refl, omega arith, omega arith), tt));
        },
        (
          record {
            key = refl;
            shared_key = refl;
            allowedips = ((refl, omega arith, omega arith), tt);
          },
          tt,
        ),
      )
      refl two_peers-has_room (omega arith)

kernel_set_device-ends_example : (kernel_set_device 9 one_ip (λ m. some 1) two_peers).end ≢ waiting
kernel_set_device-ends_example =
    kernel_set_device-ends 9 one_ip (λ m. some 1) two_peers two_peers-has_room (omega arith)

kernel_set_device-fits_example :
    all one_ip (kernel_set_device 9 one_ip (λ m. none) two_peers).messages ≡ true
unfolding put_device
kernel_set_device-fits_example =
    kernel_set_device-fits 9 one_ip (λ m. none) two_peers refl refl refl

parse_peers-drops_rest_example :
    parse_peers each
      (Attr.public_key test_key
        ∷ Attr.allowedips (
            (Attr.family (some inet) ∷ Attr.cidr_mask (some 33) ∷ [])
            ∷ (Attr.family (some inet)
                ∷ Attr.ipaddr (10 ∷ 0 ∷ 0 ∷ 0 ∷ [])
                ∷ Attr.cidr_mask (some 8)
                ∷ [])
            ∷ [])
        ∷ Attr.keepalive (some 25)
        ∷ [])
      zero_device
    ≡ (
      ok,
      record zero_device {
        peers =
            peer_cut_short test_key
              (record { family = inet; ip = []; cidr = 33; remove_me = false })
            ∷ [];
      },
    )
unfolding parse_allowedip
parse_peers-drops_rest_example =
    parse_peers-drops_rest each each-IsWalk test_key
      (Attr.family (some inet) ∷ Attr.cidr_mask (some 33) ∷ [])
      ((Attr.family (some inet) ∷ Attr.ipaddr (10 ∷ 0 ∷ 0 ∷ 0 ∷ []) ∷ Attr.cidr_mask (some 8) ∷ [])
        ∷ [])
      (Attr.keepalive (some 25) ∷ []) zero_device
      (record { family = inet; ip = []; cidr = 33; remove_me = false }) refl refl refl

coalesce_peers-follows_null_example :
    coalesce_peers (
      first_peer
      ∷ record first_peer { allowedips = [] }
      ∷ record first_peer { allowedips = net 16 ∷ [] }
      ∷ [])
    ≡ none
coalesce_peers-follows_null_example =
    coalesce_peers-follows_null first_peer (record first_peer { allowedips = [] })
      (record first_peer { allowedips = net 16 ∷ [] }) (net 8) (net 32 ∷ []) [] refl refl refl refl
