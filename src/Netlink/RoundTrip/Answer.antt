-- ===== src/Netlink/RoundTrip/Answer.antt =====
-- src/ipc-linux.h: `kernel_get_device` on a dump of the messages of `kernel_set_device`.
use mathlib.Core.Path.{subst}
use wireguard_tools.Containers.{Peer, Device, zero_device}
use wireguard_tools.Netlink.Attr.{Message, Cb, ok, error}
use wireguard_tools.Netlink.Get.Calls.{IsWalk, each, walk-each}
use wireguard_tools.Netlink.Get.{
  Walk, read_device_cb, coalesce_peers, answered, Found, found, failed, crashed, einval, eintr,
  read_answer, attempt, try_again, kernel_get_device,
}
use wireguard_tools.Netlink.RoundTrip.Cuts.{Cuts-coalesce_peers, apart, carried_peer}
use wireguard_tools.Netlink.RoundTrip.Dump.{taken, kernel_set_device-reads}
use wireguard_tools.Netlink.RoundTrip.Head.{with_peers}
use wireguard_tools.Netlink.RoundTrip.Nests.{IsSendable}
use wireguard_tools.Netlink.Set.Rounds.{weight, has_room}
use wireguard_tools.Netlink.Set.{kernel_set_device}
use wireguard_tools.Prelude.{
  ℕ, suc, ◌+◌, ◌<◌, ◌≡◌, ◌∙◌, sym, ap, Bool, true, false, Option, none, some, List, map, All, leb,
  ◌==◌, Bytes, length, arith,
}

-- A device as it is carried.
abbrev pub carried_device : Device → Device
carried_device dev = with_peers dev (map carried_peer dev.peers)

-- A walk that ends well, by its device and by what is coalesced.
abbrev coalesced : Device → Option (List Peer) → Found
coalesced d o = elim o [ none ↦ crashed | some ps ↦ found (record d { peers = ps }) ]

abbrev answer : Cb × Device → Found
answer r = elim r.0 [ error ↦ failed einval | _ ↦ coalesced r.1 (coalesce_peers r.1.peers) ]

read_answer-found :
    (messages : List Message) (d : Device) (ps : List Peer)
    → each Message Device (read_device_cb each) messages zero_device ≡ (ok, d)
    → coalesce_peers d.peers ≡ some ps
    → read_answer each messages none ≡ found (record d { peers = ps })
unfolding read_answer
read_answer-found messages d ps e c = ap answer e ∙ ap (coalesced d) c

attempt-found :
    (messages : List Message) (d : Device)
    → read_answer each messages none ≡ found d
    → attempt each (answered messages none) ≡ (false, found d)
unfolding attempt
attempt-found messages d e =
    ap (λ r. (let again : Bool = elim r [ failed e ↦ e == eintr | _ ↦ false ] in (again, r))) e

-- Let the walk have the laws of libmnl, the name that is asked for be under 16 bytes, the private
-- key 32 bytes, and each peer have two keys of 32 bytes and well-formed allowed IPs. Let no two
-- neighbouring peers have the same public key, no exchange fail, and a message behind the first
-- have room for one peer's attributes, and for its key with any one of its allowed IPs, for each
-- peer. With more rounds than one plus the weight of the peers, a dump of the messages that
-- `kernel_set_device` sends is read by `kernel_get_device` as the device that they carry: the first
-- 15 bytes of its name, what its flags announce, and the peers in order, each whole again with all
-- its allowed IPs.
pub kernel_get_device-kernel_set_device :
    (walk : Walk) (law : IsWalk walk) (fits : Message → Bool) (dev : Device) (rounds attempts : ℕ)
    (iface : Bytes)
    → length iface < 16
    → length dev.private_key ≡ 32
    → All IsSendable dev.peers
    → apart dev.peers ≡ true
    → has_room fits dev ≡ true
    → 1 + weight dev.peers < rounds
    → kernel_get_device walk
        (λ k. answered (kernel_set_device rounds fits taken dev).messages none)
        (suc attempts)
        iface
      ≡ found (carried_device dev)
unfolding kernel_get_device try_again
kernel_get_device-kernel_set_device walk law fits dev rounds attempts iface short size sendable
      differ room enough =
    let (vs, cuts, reads) = kernel_set_device-reads fits dev size rounds room sendable enough in
    let messages = (kernel_set_device rounds fits taken dev).messages in
    let once = attempt-found messages (carried_device dev) (
      read_answer-found messages (with_peers dev vs) (map carried_peer dev.peers) reads
        (Cuts-coalesce_peers cuts differ)) in
    subst
      (λ (w : Walk).
        kernel_get_device w (λ k. answered messages none) (suc attempts) iface
        ≡ found (carried_device dev))
      (sym (walk-each walk law))
      (rw (kernel_get_device, not_long)
        (ap
          (λ (r : Bool × Found).
            let f : Found = elim r.0 [
              | true ↦ try_again each (λ k. answered messages none) 1 attempts
              | false ↦ r.1
            ] in
            f)
          once))
  where
    not_long : leb 16 (length iface) ≡ false
    not_long = ground arith
