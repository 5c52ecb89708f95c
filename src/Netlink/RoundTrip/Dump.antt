-- ===== src/Netlink/RoundTrip/Dump.antt =====
-- src/ipc-linux.h: all messages of `kernel_set_device` under `read_device_cb`.
use mathlib.Core.Path.{subst}
use mathlib.Core.List.{append-nil, append_assoc}
use wireguard_tools.Containers.{AllowedIp, Peer, Device, zero_device}
use wireguard_tools.Netlink.Attr
use wireguard_tools.Netlink.Attr.{PeerAttr, DeviceAttr, Message, Cb, ok}
use wireguard_tools.Netlink.Get.Calls.{each, each_on}
use wireguard_tools.Netlink.Get.{read_device_cb}
use wireguard_tools.Netlink.RoundTrip.Cuts.{Cuts}
use wireguard_tools.Netlink.RoundTrip.Head.{
  with_peers, first_head_seen, first_message-Seen, message-Seen,
}
use wireguard_tools.Netlink.RoundTrip.Nests.{IsSendable}
use wireguard_tools.Netlink.RoundTrip.Views.{AllLeft, Seen, Takes-Views, Begins-Views}
use wireguard_tools.Netlink.Set.Begins.{Ready, peer_room, Takes-Ready, put_peers-Begins}
use wireguard_tools.Netlink.Set.Rounds.{
  weight, weight_from, Takes-weight, Begins-weight, alone, has_room, go_on, set_peers,
}
use wireguard_tools.Netlink.Set.Takes.{put_peers-Takes}
use wireguard_tools.Netlink.Set.{
  put_device, put_peers, take_peers, Sent, send_from, kernel_set_device,
}
use wireguard_tools.Prelude.{
  ℕ, zero, suc, ◌+◌, ◌<◌, ◌≡◌, ◌∙◌, refl, sym, ap, Bool, true, false, Option, none, some, List, [],
  ◌∷◌, ◌++◌, All, all, length, arith,
}

-- Every message is taken.
abbrev pub taken : Message → Option ℕ
taken m = none

module _ (fits : Message → Bool) (dev : Device) (size : length dev.private_key ≡ 32) where
  abbrev cb : Message → Device → Cb × Device
  cb = read_device_cb each

  -- The messages add peers that carry what was left.
  abbrev Reads : Option (List AllowedIp) → List Peer → Sent → Type 0
  Reads al ps s =
      (vs : List Peer) × Cuts al ps vs
      × ((us : List Peer)
          → each Message Device cb s.messages (with_peers dev us) ≡ (ok, with_peers dev (us ++ vs)))

  -- What the messages behind one read.
  abbrev Rest : ℕ → Message → Option (List AllowedIp) → List Peer → Type 0
  Rest rounds m al peer =
      (ws : List Peer) × Cuts al peer ws
      × ((s : Device) (us : List Peer)
          → cb m s ≡ (ok, with_peers dev us)
          → each Message Device cb (go_on rounds fits taken dev m none al peer).messages s
            ≡ (ok, with_peers dev (us ++ ws)))

  Rest-Reads :
      (rounds : ℕ) (m : Message) (al : Option (List AllowedIp)) (peer : List Peer)
      → Ready (alone fits dev) al peer
      → ((q : Peer) (qs : List Peer)
          → peer ≡ q ∷ qs
          → Reads al (q ∷ qs) (send_from rounds fits taken dev false al (q ∷ qs)))
      → Rest rounds m al peer
  Rest-Reads rounds m none [] r ih = (
    [],
    Cuts.none_left,
    λ s us e.
        each_on Message Device cb m [] s (with_peers dev us) e
        ∙ ap (λ l. (ok, with_peers dev l)) (sym (append-nil us)),
  )
  Rest-Reads rounds m (some left) [] r ih = absurd r
  Rest-Reads rounds m al (q ∷ qs) r ih =
      let (ws, cuts, reads) = ih q qs refl in
      (
        ws,
        cuts,
        λ s us e.
            each_on Message Device cb m (send_from rounds fits taken dev false al (q ∷ qs)).messages
              s (with_peers dev us) e
            ∙ reads us,
      )

  send_from-Reads :
      (rounds : ℕ) (al : Option (List AllowedIp)) (p : Peer) (ps : List Peer)
      → Ready (alone fits dev) al (p ∷ ps)
      → All IsSendable (p ∷ ps)
      → AllLeft al
      → weight_from al (p ∷ ps) < rounds
      → Reads al (p ∷ ps) (send_from rounds fits taken dev false al (p ∷ ps))
  unfolding send_from take_peers
  send_from-Reads zero al p ps r h l enough = absurd (omega arith)
  send_from-Reads (suc rounds) al p ps r h l enough =
      let room =
        λ (nests : List (List PeerAttr)). fits (put_device false dev ++ Attr.peers nests ∷ []) in
      let t = put_peers room [] al (p ∷ ps) in
      let begins = put_peers-Begins room p ps al r in
      let (new, same, takes) = put_peers-Takes room [] al (p ∷ ps) in
      let left = Takes-Ready (alone fits dev) takes r in
      let (vs, seen, cuts, sendable, left_fits) = Begins-Views begins h l in
      let (ws, rest, reads) =
        Rest-Reads rounds (put_device false dev ++ Attr.peers t.nests ∷ []) t.allowedip t.peer left
          (λ q qs e.
            let w = Begins-weight begins in
            send_from-Reads rounds t.allowedip q qs
              (subst (Ready (alone fits dev) t.allowedip) e left)
              (subst (All IsSendable) e sendable) left_fits
              (subst (λ (l : List Peer). weight_from t.allowedip l < rounds) e (omega arith))) in
      (
        vs ++ ws,
        cuts ws rest,
        λ us.
            reads (with_peers dev us) (us ++ vs) (message-Seen dev size t.nests us vs seen)
            ∙ ap (λ l. (ok, with_peers dev l)) (append_assoc us vs ws),
      )

  -- The first message begins at no device.
  first_message-Reads :
      (rounds : ℕ) (p : Peer) (ps : List Peer)
      → all (peer_room (alone fits dev)) (p ∷ ps) ≡ true
      → All IsSendable (p ∷ ps)
      → 1 + weight (p ∷ ps) < rounds
      → (vs : List Peer) × Cuts none (p ∷ ps) vs
        × (each Message Device cb
              (send_from rounds fits taken dev true none (p ∷ ps)).messages
              zero_device
            ≡ (ok, with_peers dev vs))
  unfolding send_from take_peers
  first_message-Reads zero p ps r h enough = absurd (omega arith)
  first_message-Reads (suc rounds) p ps r h enough =
      let room =
        λ (nests : List (List PeerAttr)). fits (put_device true dev ++ Attr.peers nests ∷ []) in
      let t = put_peers room [] none (p ∷ ps) in
      let (new, same, takes) = put_peers-Takes room [] none (p ∷ ps) in
      let left = Takes-Ready (alone fits dev) takes r in
      let (vs, seen, cuts, sendable, left_fits) = Takes-Views takes h in
      let (ws, rest, reads) =
        Rest-Reads rounds (put_device true dev ++ Attr.peers t.nests ∷ []) t.allowedip t.peer left
          (λ q qs e.
            let w = Takes-weight takes in
            send_from-Reads rounds t.allowedip q qs
              (subst (Ready (alone fits dev) t.allowedip) e left)
              (subst (All IsSendable) e sendable) left_fits
              (subst (λ (l : List Peer). weight_from t.allowedip l < rounds) e (omega arith))) in
      (
        vs ++ ws,
        cuts ws rest,
        reads zero_device vs
            (first_message-Seen dev size t.nests vs (subst (λ n. Seen n vs) (sym same) seen)),
      )

  -- What the callbacks read of all messages carries the peers in pieces.
  pub kernel_set_device-reads :
      (rounds : ℕ)
      → has_room fits dev ≡ true
      → All IsSendable dev.peers
      → 1 + weight dev.peers < rounds
      → (vs : List Peer) × Cuts none dev.peers vs
        × (each Message Device cb (kernel_set_device rounds fits taken dev).messages zero_device
            ≡ (ok, with_peers dev vs))
  unfolding kernel_set_device
  kernel_set_device-reads rounds r h enough = by_peers dev.peers r h enough
    where
      by_peers :
          (ps : List Peer)
          → all (peer_room (alone fits dev)) ps ≡ true
          → All IsSendable ps
          → 1 + weight ps < rounds
          → (vs : List Peer) × Cuts none ps vs
            × (each Message Device cb (set_peers rounds fits taken dev ps).messages zero_device
                ≡ (ok, with_peers dev vs))
      by_peers [] r h enough = (
        [],
        Cuts.none_left,
        each_on Message Device cb (put_device true dev) [] zero_device (with_peers dev [])
            (first_head_seen dev size),
      )
      by_peers (p ∷ ps) r h enough = first_message-Reads rounds p ps r h enough
