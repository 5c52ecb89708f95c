-- ===== src/Netlink/RoundTrip/Head.antt =====
-- src/ipc-linux.h: the messages of `kernel_set_device` under `parse_device`.
use wireguard_tools.Containers.{Peer, Device, zero_device, zero_device_flags, zero_key}
use wireguard_tools.Netlink.Attr
use wireguard_tools.Netlink.Attr.{PeerAttr, DeviceAttr, Cb, ok}
use wireguard_tools.Netlink.Get.Calls.{each, each_on, each-append}
use wireguard_tools.Netlink.Get.{parse_device}
use wireguard_tools.Netlink.RoundTrip.Views.{Seen}
use wireguard_tools.Netlink.Set.{put_device, one_if}
use wireguard_tools.Prelude.{
  ◌≡◌, ◌∙◌, refl, Bool, true, false, some, List, [], ◌∷◌, ◌++◌, if◌then◌else◌, length, take, ==_iff,
}

-- What is read of a device in front of its peers: what the three tests let through.
abbrev pub seen_head : Bool → Bool → Bool → Device → Device
seen_head keyed bound marked dev = record zero_device {
  name = take 15 dev.name;
  flags = record zero_device_flags { has_private_key = keyed };
  private_key = if keyed then dev.private_key else zero_key;
  listen_port = if bound then dev.listen_port else 0;
  fwmark = if marked then dev.fwmark else 0;
}

abbrev pub with_peers : Device → List Peer → Device
with_peers dev vs =
    record (seen_head dev.flags.has_private_key dev.flags.has_listen_port dev.flags.has_fwmark
      dev) { peers = vs }

each-one_if :
    (b : Bool) (a : DeviceAttr) (f : Bool → Device)
    → parse_device each a (f false) ≡ (ok, f true)
    → each DeviceAttr Device (parse_device each) (one_if b a) (f false) ≡ (ok, f b)
each-one_if true a f e = each_on DeviceAttr Device (parse_device each) a [] (f false) (f true) e
each-one_if false a f e = refl

module _ (dev : Device) (size : length dev.private_key ≡ 32) where
  private_key_seen :
      parse_device each (Attr.private_key dev.private_key) (seen_head false false false dev)
      ≡ (ok, seen_head true false false dev)
  unfolding parse_device
  private_key_seen = rw (parse_device, (==_iff (length dev.private_key) 32).1 size) refl

  -- The attributes in front of the peers of the first message.
  pub first_head_seen :
      each DeviceAttr Device (parse_device each) (put_device true dev) zero_device
      ≡ (ok, with_peers dev [])
  unfolding parse_device put_device
  first_head_seen =
      let keyed = dev.flags.has_private_key in
      let bound = dev.flags.has_listen_port in
      let marked = dev.flags.has_fwmark in
      let cb = parse_device each in
      let port = one_if bound (Attr.listen_port (some dev.listen_port)) in
      let mark = one_if marked (Attr.fwmark (some dev.fwmark)) in
      let replace = one_if dev.flags.replace_peers Attr.replace_peers in
      each_on DeviceAttr Device cb (Attr.ifname (some dev.name))
        (one_if keyed (Attr.private_key dev.private_key) ++ (port ++ (mark ++ replace))) zero_device
        (seen_head false false false dev) refl
      ∙ (each-append DeviceAttr Device cb (one_if keyed (Attr.private_key dev.private_key))
            (port ++ (mark ++ replace)) (seen_head false false false dev)
            (seen_head keyed false false dev)
            (each-one_if keyed (Attr.private_key dev.private_key) (λ b. seen_head b false false dev)
              private_key_seen)
          ∙ (each-append DeviceAttr Device cb port (mark ++ replace)
                (seen_head keyed false false dev) (seen_head keyed bound false dev)
                (each-one_if bound (Attr.listen_port (some dev.listen_port))
                  (λ b. seen_head keyed b false dev) refl)
              ∙ (each-append DeviceAttr Device cb mark replace (seen_head keyed bound false dev)
                    (seen_head keyed bound marked dev)
                    (each-one_if marked (Attr.fwmark (some dev.fwmark))
                      (λ b. seen_head keyed bound b dev) refl)
                  ∙ each-one_if dev.flags.replace_peers Attr.replace_peers
                      (λ b. seen_head keyed bound marked dev) refl)))

  peers-Seen :
      (nests : List (List PeerAttr)) (us vs : List Peer)
      → Seen nests vs
      → each DeviceAttr Device (parse_device each) (Attr.peers nests ∷ []) (with_peers dev us)
        ≡ (ok, with_peers dev (us ++ vs))
  unfolding parse_device
  peers-Seen nests us vs seen =
      each_on DeviceAttr Device (parse_device each) (Attr.peers nests) [] (with_peers dev us) _
        (seen (with_peers dev us))

  pub first_message-Seen :
      (nests : List (List PeerAttr)) (vs : List Peer)
      → Seen nests vs
      → each DeviceAttr Device
          (parse_device each)
          (put_device true dev ++ Attr.peers nests ∷ [])
          zero_device
        ≡ (ok, with_peers dev vs)
  first_message-Seen nests vs seen =
      each-append DeviceAttr Device (parse_device each) (put_device true dev)
        (Attr.peers nests ∷ []) zero_device (with_peers dev []) first_head_seen
      ∙ peers-Seen nests [] vs seen

  pub message-Seen :
      (nests : List (List PeerAttr)) (us vs : List Peer)
      → Seen nests vs
      → each DeviceAttr Device
          (parse_device each)
          (put_device false dev ++ Attr.peers nests ∷ [])
          (with_peers dev us)
        ≡ (ok, with_peers dev (us ++ vs))
  unfolding parse_device put_device
  message-Seen nests us vs seen =
      each_on DeviceAttr Device (parse_device each) (Attr.ifname (some dev.name))
        (Attr.peers nests ∷ []) (with_peers dev us) (with_peers dev us) refl
      ∙ peers-Seen nests us vs seen
