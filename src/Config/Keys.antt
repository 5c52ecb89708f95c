-- ===== src/Config/Keys.antt =====
-- src/config.c: `parse_key`, `parse_keyfile` and `parse_ws_secret_file`.
use wireguard_tools.Config.Numbers.{is_empty}
use wireguard_tools.Config.Outcome.{Outcome, done, fail}
use wireguard_tools.Config.System.{System}
use wireguard_tools.Containers.{zero_key}
use wireguard_tools.Ctype.{char_is_space}
use wireguard_tools.Encoding.Base64.{key_from_base64, key_len_base64}
use wireguard_tools.Prelude.{
  ℕ, zero, suc, ◌-◌, Bool, false, not, ◌&&◌, ◌||◌, none, some, [], ◌∷◌, ltb, ◌==◌, if◌then◌else◌,
  Bytes, length, take, drop, all,
}
use wireguard_tools.Libc.Text.{span_until}

-- The key that is stored, over the bytes that stood there.
unfoldable pub parse_key : Bytes → Bytes → Outcome Bytes
parse_key key value =
    let (good, key') = key_from_base64 key value in if good then done key' else fail

-- `getc` gives the remaining bytes as numbers from 0 to 255.
unfoldable pub parse_keyfile : System → Bytes → Bytes → Outcome Bytes
parse_keyfile sys key path = elim (sys.open_file path) [
  | none ↦ fail
  | some f ↦
      if ltb (length f.content) key_len_base64
      then (if not f.read_error && is_empty f.content then done zero_key else fail)
      else if not (all char_is_space (drop key_len_base64 f.content))
      then fail
      else if f.read_error
      then fail
      else parse_key key (take key_len_base64 f.content)
]

-- `fgets` into `room` bytes with the terminator: a front of the file up to and with its first
-- newline, and what is left of the file.
unfoldable pub fgets_line : ℕ → Bytes → Bytes × Bytes
fgets_line zero s = ([], s)
fgets_line (suc room) [] = ([], [])
fgets_line (suc room) (c ∷ s) =
    let (front, rest) = fgets_line room s in if c == b'\n' then (c ∷ [], s) else (c ∷ front, rest)

unfoldable pub ends_newline : Bytes → Bool
ends_newline [] = false
ends_newline (c ∷ []) = c == b'\n'
ends_newline (c ∷ d ∷ s) = ends_newline (d ∷ s)

unfoldable pub drop_last : Bytes → Bytes
drop_last [] = []
drop_last (c ∷ []) = []
drop_last (c ∷ d ∷ s) = c ∷ drop_last (d ∷ s)

abbrev pub buf_size : ℕ
buf_size = 8192

-- The token of the first line. `strlen` stops at a NUL byte. An error before a newline or a full
-- buffer makes `fgets` return NULL.
unfoldable pub parse_ws_secret_file : System → Bytes → Outcome Bytes
parse_ws_secret_file sys path = elim (sys.open_file path) [
  | none ↦ fail
  | some f ↦
      let (line, rest) = fgets_line (buf_size - 1) f.content in
      let buf = (span_until 0 line).0 in
      let cut_short =
        f.read_error
        && (is_empty rest && (ltb (length line) (buf_size - 1) && not (ends_newline line))) in
      if is_empty line || cut_short
      then fail
      else if ends_newline buf
      then (let token = drop_last buf in if is_empty token then fail else done token)
      else if length buf == buf_size - 1 && not (is_empty rest)
      then fail
      else if is_empty buf
      then fail
      else done buf
]
