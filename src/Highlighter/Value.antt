-- ===== src/Highlighter/Value.antt =====
-- contrib/highlighter/highlighter.c: the spans of one value. A `string_span_t` into the text is its
-- offset and its length; a `highlight_span_array` is the list of its spans.
use wireguard_tools.Highlighter.Validate.{
  is_valid_key, is_valid_hostname, is_valid_ipv4, is_valid_ipv6, is_valid_port, is_valid_mtu,
  is_valid_persistentkeepalive, is_valid_fwmark, is_valid_table, is_valid_saveconfig,
  is_valid_prepostupdown, is_valid_endpoint, is_valid_network,
}
use wireguard_tools.Libc.Text.{split_first, split_last}
use wireguard_tools.Prelude.{
  ℕ, suc, ◌+◌, ◌-◌, ◌^◌, Bool, not, ◌&&◌, ◌||◌, none, some, List, [], ◌∷◌, ◌++◌, ◌==◌,
  if◌then◌else◌, Bytes, length, get_or, take, drop,
}

pub record Span : Type 0 where
  pub s : ℕ
  pub len : ℕ

-- The characters of a span, and the one behind it.
abbrev pub chars : Bytes → Span → Bytes
chars text span = take span.len (drop span.s text)

abbrev pub next : Bytes → Span → ℕ
next text span = get_or text (span.s + span.len) 0

pub data Field : Type 0 where
  interface_section private_key listen_port address dns mtu fw_mark table : Field
  pre_up post_up pre_down post_down save_config : Field
  peer_section public_key preshared_key allowed_ips endpoint persistent_keepalive : Field
  invalid : Field

pub data HighlightType : Type 0 where
  section field private public preshared ip cidr host port mtu_value keepalive comment delimiter :
      HighlightType
  table_value mark_value save_value cmd error end : HighlightType

pub record HighlightSpan : Type 0 where
  pub kind : HighlightType
  pub start : ℕ
  pub len : ℕ

unfoldable pub append_highlight_span :
    List HighlightSpan → Span → HighlightType → List HighlightSpan
append_highlight_span a span t =
    if span.len == 0 then a else a ++ record { kind = t; start = span.s; len = span.len } ∷ []

-- A span with its type where it is valid.
abbrev pub checked : Bool → HighlightType → HighlightType
checked valid t = if valid then t else error

-- The branch for `Address` and `AllowedIPs`.
unfoldable pub highlight_network : Bytes → List HighlightSpan → Span → List HighlightSpan
highlight_network text ret s =
    if not (is_valid_network (next text s) (chars text s))
    then append_highlight_span ret s error
    else elim (split_first b'/' (chars text s)) [
      | none ↦ append_highlight_span ret s ip
      | some (before, behind) ↦
          let slash = length before in
          let first = append_highlight_span ret (record { s = s.s; len = slash }) ip in
          let second =
            append_highlight_span first (record { s = s.s + slash; len = 1 }) delimiter in
          append_highlight_span second (record { s = s.s + slash + 1; len = s.len - slash - 1 })
            cidr
    ]

unfoldable pub highlight_multivalue_value :
    Bytes → List HighlightSpan → Span → Field → List HighlightSpan
highlight_multivalue_value text ret s dns = append_highlight_span ret s (
    if is_valid_ipv4 (next text s) (chars text s) || is_valid_ipv6 (next text s) (chars text s)
    then ip
    else if is_valid_hostname (chars text s)
    then host
    else error)
highlight_multivalue_value text ret s address = highlight_network text ret s
highlight_multivalue_value text ret s allowed_ips = highlight_network text ret s
highlight_multivalue_value text ret s _ = append_highlight_span ret s error

-- The locals of `highlight_multivalue`.
pub record Multi : Type 0 where
  pub ret : List HighlightSpan
  pub current_span : Span
  pub len_at_last_space : ℕ

-- One character, at offset `i` of the text.
unfoldable pub multi_step : Bytes → Field → ℕ → ℕ → Multi → Multi
multi_step text key i c m =
    if c == b','
    then record {
      ret =
          append_highlight_span
            (highlight_multivalue_value text m.ret
              (record (m.current_span) { len = m.len_at_last_space }) key)
            (record { s = i; len = 1 }) delimiter;
      current_span = record { s = i + 1; len = 0 };
      len_at_last_space = 0;
    }
    else if c == b' ' || c == b'\t'
    then (if i == m.current_span.s && m.current_span.len == 0
        then record m { current_span = record (m.current_span) { s = suc m.current_span.s } }
        else record m { current_span = record (m.current_span) { len = suc m.current_span.len } })
    else record m {
      current_span = record (m.current_span) { len = suc m.current_span.len };
      len_at_last_space = suc m.current_span.len;
    }

unfoldable pub multi_from : Bytes → Field → ℕ → Bytes → Multi → Multi
multi_from text key i [] m = m
multi_from text key i (c ∷ s) m = multi_from text key (i + 1) s (multi_step text key i c m)

-- The last span of the array, which is read where the value ends behind a comma.
unfoldable pub mark_error : List HighlightSpan → List HighlightSpan
mark_error [] = []
mark_error (a ∷ []) = (elim a.kind [ delimiter ↦ record a { kind = error } | _ ↦ a ]) ∷ []
mark_error (a ∷ b ∷ rest) = a ∷ mark_error (b ∷ rest)

unfoldable pub highlight_multivalue : Bytes → List HighlightSpan → Span → Field → List HighlightSpan
highlight_multivalue text ret s key =
    let m =
      multi_from text key s.s (chars text s)
        (record { ret = ret; current_span = record { s = s.s; len = 0 }; len_at_last_space = 0 }) in
    if not (m.len_at_last_space == 0)
    then highlight_multivalue_value text m.ret
        (record (m.current_span) { len = m.len_at_last_space }) key
    else mark_error m.ret

-- The offset of the last colon, where the loop counts down; without one it ends at -1.
abbrev pub last_colon : Bytes → ℕ
last_colon s = elim (split_last b':' s) [
  | none ↦ 2 ^ 64 - 1
  | some (before, behind) ↦ length before
]

unfoldable pub highlight_endpoint : Bytes → List HighlightSpan → Span → List HighlightSpan
highlight_endpoint text ret s =
    if not (is_valid_endpoint (chars text s))
    then append_highlight_span ret s error
    else (let colon = last_colon (chars text s) in
        let first = append_highlight_span ret (record { s = s.s; len = colon }) host in
        let second = append_highlight_span first (record { s = s.s + colon; len = 1 }) delimiter in
        append_highlight_span second (record { s = s.s + colon + 1; len = s.len - colon - 1 }) port)

unfoldable pub highlight_value : Bytes → List HighlightSpan → Span → Field → List HighlightSpan
highlight_value text ret s private_key =
    append_highlight_span ret s (checked (is_valid_key (chars text s)) private)
highlight_value text ret s public_key =
    append_highlight_span ret s (checked (is_valid_key (chars text s)) public)
highlight_value text ret s preshared_key =
    append_highlight_span ret s (checked (is_valid_key (chars text s)) preshared)
highlight_value text ret s mtu =
    append_highlight_span ret s (checked (is_valid_mtu (chars text s)) mtu_value)
highlight_value text ret s save_config =
    append_highlight_span ret s (checked (is_valid_saveconfig (chars text s)) save_value)
highlight_value text ret s fw_mark =
    append_highlight_span ret s (checked (is_valid_fwmark (chars text s)) mark_value)
highlight_value text ret s table =
    append_highlight_span ret s (checked (is_valid_table (chars text s)) table_value)
highlight_value text ret s pre_up =
    append_highlight_span ret s (checked (is_valid_prepostupdown (chars text s)) cmd)
highlight_value text ret s post_up =
    append_highlight_span ret s (checked (is_valid_prepostupdown (chars text s)) cmd)
highlight_value text ret s pre_down =
    append_highlight_span ret s (checked (is_valid_prepostupdown (chars text s)) cmd)
highlight_value text ret s post_down =
    append_highlight_span ret s (checked (is_valid_prepostupdown (chars text s)) cmd)
highlight_value text ret s listen_port =
    append_highlight_span ret s (checked (is_valid_port (chars text s)) port)
highlight_value text ret s persistent_keepalive =
    append_highlight_span ret s (checked (is_valid_persistentkeepalive (chars text s)) keepalive)
highlight_value text ret s endpoint = highlight_endpoint text ret s
highlight_value text ret s address = highlight_multivalue text ret s address
highlight_value text ret s dns = highlight_multivalue text ret s dns
highlight_value text ret s allowed_ips = highlight_multivalue text ret s allowed_ips
highlight_value text ret s _ = append_highlight_span ret s error
