-- ===== src/Lib.antt =====
-- wireguard-tools: key encoding, the configuration parser, syncconf, showconf, the user-space protocol
-- and the netlink messages of the `wg` command, and the highlighter of configuration files.
--
-- The tools read configuration files and command lines into a `struct wgdevice` (src/containers.h)
-- and hand it to the kernel or a user-space daemon. The parts that are modelled, and their files:
--   Ctype              src/ctype.h: the branch-free character tests on signed chars
--   Encoding/          src/encoding.c: Base64 and hexadecimal keys, constant-time tests, with the
--                      wrap-around of the C types written out
--   Containers         src/containers.h: devices, peers, allowed IPs and their flag bits
--   Config/Numbers     src/config.c: ports, marks, intervals, milliseconds, resolver retries
--   Config/Keys        src/config.c: keys and secrets in values and in files
--   Config/Endpoint    src/config.c: `parse_endpoint` with its retried name lookup
--   Config/WsUrl       src/config.c: `is_ws_url`, `ws_url_split`, `parse_ws_endpoint`
--   Config/WsValues    src/config.c: the values of the other WebSocket keys
--   Config/WsPeer      src/config.c: `validate_ws_peer`
--   Config/AllowedIps  src/config.c: `parse_ip`, `parse_ip_prefix`, `parse_allowedips`
--   Config/Netmask     src/config.c: `validate_netmask`
--   Config/Line        src/config.c: `process_line`, `config_read_line`, `config_read_init`,
--                      `config_read_finish`, and the read loop of src/setconf.c
--   Config/Command     src/config.c: `config_read_cmd`, the arguments of `wg set`
--   Uapi               src/ipc-uapi.h: the request of `userspace_set_device` and its answer, and
--                      the reader of answers in `userspace_get_device`
--   Show               src/show.c: the order of peers and the printing of times
--   Sync               src/setconf.c: `sync_conf`
--   Ipc                src/ipc.c: the list of interface names, and the choice of a back end
--   Netlink            src/ipc-linux.h: the messages of `kernel_set_device`, and their reading and the
--                      joining of peers in `kernel_get_device`
--   Showconf           src/showconf.c: what `showconf_main` prints of a device
--   Terminal           src/terminal.c: the filter of control sequences
--   Highlighter        contrib/highlighter/highlighter.c: the validators of values, and the spans of a
--                      configuration text
-- Prelude and Bits hold shared lemmas, Libc what the program uses of the C library (strtoul, strchr,
-- strsep, decimal and hexadecimal printing), Tests runs on concrete inputs.
--
-- A C string is the list of its bytes without the NUL. A parser of src/config.c is a function into
-- `Outcome`: `done` with the new state, `fail` for false or NULL, `exited` for exit(1), `fault` for
-- a NULL pointer that is followed. The linked lists of peers and allowed IPs are lists, and
-- `last_peer` is their last element. getaddrinfo, inet_pton, getenv and fopen are the fields of
-- `Config.System.System`; `IsSystem` says what their manual pages promise.
--
-- The lookup loop of `parse_endpoint` has no bound in the source when WG_ENDPOINT_RESOLUTION_RETRIES
-- is "infinity"; `System.attempts` is the number of attempts that are followed, and `waiting` means
-- that it was not enough. With a number of retries, one attempt more than retries is enough.
--
-- A netlink message is the tree of its attributes. Of libmnl, the walk over attributes and messages
-- and the test whether a message still fits are parameters; `IsWalk` says what the walk does. `rounds`
-- is the number of messages of one device that are followed, and `Netlink.Set.Rounds` has a number
-- that is enough; `attempts` is the number of dumps that are asked for after EINTR.
--
-- int has 32 bits, unsigned long 64, and char is signed. Allocation does not fail. Messages on stderr
-- are left out. `qsort` is a parameter of `sync_conf`, `curve25519_generate_public` one of
-- `userspace_get_device`, and `inet_ntop` and `getnameinfo` are parameters of `showconf`.
--
-- Not modelled: show but for what is named above; the search for interfaces in src/ipc-linux.h, the
-- nvlist and ioctl back ends and the sockets (system calls), src/curve25519*.h (generated),
-- src/netlink.h (a copy of libmnl), genkey and pubkey, the table of subcommands, wg-quick, the rest of
-- contrib.

pub mod Prelude
pub mod Bits
pub mod Ctype
pub mod Encoding
pub mod Containers
pub mod Libc
pub mod Config
pub mod Uapi
pub mod Show
pub mod Sync
pub mod Ipc
pub mod Netlink
pub mod Showconf
pub mod Terminal
pub mod Highlighter
pub mod Tests
