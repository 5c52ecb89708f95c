-- ===== src/Tests/Ipc.antt =====
-- src/ipc.c on three interface names, and on a UDP configuration.
use wireguard_tools.Config.WsPeer.{validate_ws_peer}
use wireguard_tools.Containers.{Peer, zero_peer, zero_device}
use wireguard_tools.Ipc.Kernel.{IsCarried, ipc_set_device-IsCarried}
use wireguard_tools.Ipc.Names.{filled_names, ipc_list_devices-names_in}
use wireguard_tools.Ipc.{
  Search, listed, kernel, not_empty, device_has_ws_settings, ipc_list_devices, names_in,
  ipc_set_device, string_list_add, room_for, grown, put, write,
}
use wireguard_tools.Libc.Text.{contains}
use wireguard_tools.Prelude.{
  ℕ, zero, suc, ◌≡◌, refl, arith, true, false, none, [], ◌∷◌, ◌++◌, Bytes, codes, length, replicate,
  All,
}
use wireguard_tools.Tests.Config.{test_device, test_lines-IsBytes, read_config_test}
use wireguard_tools.Tests.Setup.{test_system, test_system-IsSystem, test_lines}

length-replicate : (n : ℕ) → length {A = ℕ} (replicate n 170) ≡ n
length-replicate zero = refl
length-replicate (suc n) = omega (arith, length-replicate n)

abbrev of_kernel : Search
of_kernel = record { names = codes "wg0" ∷ [] ∷ codes "wg1" ∷ []; failed = false }

abbrev of_userspace : Search
of_userspace = record { names = codes "utun7" ∷ []; failed = false }

plain : All (λ s. contains 0 s ≡ false) (of_kernel.names ++ of_userspace.names)
unfolding contains
plain = (refl, (refl, (refl, (refl, tt))))

ipc_list_devices-names_in_example :
    (result : Bytes) × (ipc_list_devices (λ n. replicate n 170) of_kernel of_userspace
      ≡ listed result)
    × (names_in [] result ≡ filled_names (of_kernel.names ++ of_userspace.names))
ipc_list_devices-names_in_example =
    ipc_list_devices-names_in (λ n. replicate n 170) length-replicate of_kernel of_userspace refl
      refl plain (omega arith)

-- The capacity doubles for the third name.
grows :
    ipc_list_devices (λ n. replicate n 170) of_kernel of_userspace
    ≡ listed (
        codes "wg0"
        ++ 0 ∷ codes "wg1"
        ++ 0 ∷ codes "utun7"
        ++ 0 ∷ 0 ∷ 170 ∷ 170 ∷ 170 ∷ 170 ∷ 170 ∷ [])
unfolding ipc_list_devices string_list_add room_for grown put write
grows = refl

chosen : ipc_set_device false test_device ≡ kernel
unfolding device_has_ws_settings
chosen = refl

ipc_set_device-IsCarried_example :
    All IsCarried test_device.peers
    × (not_empty test_device.ws_listen ≡ false)
    × (test_device.ws_server_tls_cert ≡ none)
    × (test_device.ws_server_tls_key ≡ none)
    × (test_device.ws_server_bearer ≡ none)
    × (test_device.ws_trusted_proxies ≡ none)
ipc_set_device-IsCarried_example =
    ipc_set_device-IsCarried test_system test_system-IsSystem false false test_lines
      {d = test_device} test_lines-IsBytes read_config_test chosen

abbrev masked_peer : Peer
masked_peer = record zero_peer {
  ws_mask = true;
  flags = record (zero_peer.flags) { has_public_key = true; has_ws_settings = true };
}

-- A peer without a declared transport: the kernel is chosen in spite of the setting.
setting_lost :
    (validate_ws_peer masked_peer ≡ true)
    × (ipc_set_device false (record zero_device { peers = masked_peer ∷ [] }) ≡ kernel)
unfolding device_has_ws_settings validate_ws_peer
setting_lost = (refl, refl)
