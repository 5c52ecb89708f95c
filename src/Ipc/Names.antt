-- ===== src/Ipc/Names.antt =====
-- src/ipc.c: the names in the buffer.
use mathlib.Core.List.{append_assoc, append-nil}
use mathlib.Core.Path.{subst}
use wireguard_tools.Ipc.Buffer.{Holds, string_list_add-Holds}
use wireguard_tools.Ipc.{
  StringList, string_list_add, add_all, Search, listed, ipc_list_devices, names_in,
}
use wireguard_tools.Libc.Text.{contains}
use wireguard_tools.Prelude.{
  ℕ, suc, ◌+◌, ◌^◌, ◌<◌, ◌≡◌, ◌∙◌, refl, sym, ap, arith, false, some, List, [], ◌∷◌, ◌++◌, ◌==◌,
  if◌then◌else◌, Bytes, length, length-append, All, Bool-cases, inl, inr,
}

-- The names one after another, each with its NUL; empty ones are left out.
abbrev pub joined : List Bytes → Bytes
joined [] = []
joined ([] ∷ names) = joined names
joined ((c ∷ s) ∷ names) = (c ∷ s) ++ 0 ∷ joined names

module _ (fresh : ℕ → Bytes) (fresh_len : (n : ℕ) → length (fresh n) ≡ n) where
  add_nothing : (list : StringList) → string_list_add fresh list [] ≡ some list
  unfolding string_list_add
  add_nothing list = refl

  add_all-Holds :
      (text : Bytes) (names : List Bytes) (list : StringList)
      → Holds text list
      → length text + length (joined names) + 1 < 2 ^ 64
      → (next : StringList) × (add_all fresh list names ≡ some next)
        × Holds (text ++ joined names) next
  add_all-Holds text [] list h small =
      (list, refl, subst (λ t. Holds t list) (sym (append-nil text)) h)
  add_all-Holds text ([] ∷ names) list h small =
      rw (add_all, add_nothing list) (add_all-Holds text names list h small)
  add_all-Holds text ((c ∷ s) ∷ names) list h small =
      let size : length (joined ((c ∷ s) ∷ names)) ≡ length (c ∷ s) + suc (length (joined names)) =
        length-append (c ∷ s) (0 ∷ joined names) in
      let (next, added, held) =
        string_list_add-Holds fresh fresh_len text (c ∷ s) list h (omega (arith, size))
          (omega arith) in
      let more = add_all-Holds (text ++ ((c ∷ s) ++ 0 ∷ [])) names next held (
        omega
          (arith, size, length-append text ((c ∷ s) ++ 0 ∷ []), length-append (c ∷ s) (0 ∷ []))) in
      let same : (text ++ ((c ∷ s) ++ 0 ∷ [])) ++ joined names ≡ text ++ joined ((c ∷ s) ∷ names) =
        append_assoc text ((c ∷ s) ++ 0 ∷ []) (joined names)
        ∙ ap (λ (t : Bytes). text ++ t) (append_assoc (c ∷ s) (0 ∷ []) (joined names)) in
      (more.0, rw (add_all, added) more.1, subst (λ t. Holds t more.0) same more.2)

-- The names that are not empty.
abbrev pub filled_names : List Bytes → List Bytes
filled_names [] = []
filled_names ([] ∷ names) = filled_names names
filled_names ((c ∷ s) ∷ names) = (c ∷ s) ∷ filled_names names

names_in-name :
    (front s rest : Bytes)
    → contains 0 s ≡ false
    → 0 < length front + length s
    → names_in front (s ++ 0 ∷ rest) ≡ (front ++ s) ∷ names_in [] rest
unfolding names_in contains
names_in-name front [] rest h k =
    let some_char : length front == 0 ≡ false = ground arith in
    rw (some_char, append-nil front) refl
names_in-name front (c ∷ s) rest h k =
    let not_nul : c == 0 ≡ false = ground arith in
    rw not_nul (
      names_in-name (front ++ c ∷ []) s rest (ground arith)
        (omega (arith, length-append front (c ∷ [])))
      ∙ ap (λ n. n ∷ names_in [] rest) (append_assoc front (c ∷ []) s))

names_in-joined :
    (names : List Bytes) (rest : Bytes)
    → All (λ s. contains 0 s ≡ false) names
    → names_in [] (joined names ++ 0 ∷ rest) ≡ filled_names names
unfolding names_in
names_in-joined [] rest h = refl
names_in-joined ([] ∷ names) rest h = names_in-joined names rest h.1
names_in-joined ((c ∷ s) ∷ names) rest h =
    ap (names_in []) (append_assoc (c ∷ s) (0 ∷ joined names) (0 ∷ rest))
    ∙ names_in-name [] (c ∷ s) (joined names ++ 0 ∷ rest) h.0 (omega arith)
    ∙ ap (λ (ns : List Bytes). (c ∷ s) ∷ ns) (names_in-joined names rest h.1)

joined-append : (xs ys : List Bytes) → joined (xs ++ ys) ≡ joined xs ++ joined ys
joined-append [] ys = refl
joined-append ([] ∷ xs) ys = joined-append xs ys
joined-append ((c ∷ s) ∷ xs) ys =
    ap (λ (t : Bytes). (c ∷ s) ++ 0 ∷ t) (joined-append xs ys)
    ∙ sym (append_assoc (c ∷ s) (0 ∷ joined xs) (joined ys))

no_bytes : (s : Bytes) → length s ≡ 0 → s ≡ []
no_bytes [] e = refl
no_bytes (c ∷ s) e = absurd (omega arith)

-- The loops over the result find the names.
Holds-names_in :
    (names : List Bytes) (list : StringList)
    → Holds (joined names) list
    → All (λ s. contains 0 s ≡ false) names
    → names_in [] (if list.cap == 0 then 0 ∷ [] else list.buffer) ≡ filled_names names
unfolding names_in
Holds-names_in names list h plain = elim (Bool-cases (list.cap == 0)) [
  | inl empty ↦
      let text_size = length-append (joined names) h.rest in
      let nil : joined names ≡ [] =
        no_bytes (joined names) (ground (arith, h.whole, ap length h.parts, text_size)) in
      rw empty (
        subst (λ t. names_in [] (t ++ 0 ∷ []) ≡ filled_names names) nil
          (names_in-joined names [] plain))
  | inr some_bytes ↦ elim h.ended [
    | inr (tail, behind) ↦ rw some_bytes (
        ap (names_in []) (h.parts ∙ ap (λ b. joined names ++ b) behind)
        ∙ names_in-joined names tail plain)
    | inl (none_left, no_text) ↦ absurd (
        ground (
          arith,
          h.whole,
          ap length h.parts,
          ap length none_left,
          ap length no_text,
          length-append (joined names) h.rest,
        ))
  ]
]

-- For a `realloc` that adds as many bytes as are asked for, searches that do not fail, and names
-- without NUL that take, each with a NUL behind it, fewer than 2^64 - 1 bytes: `ipc_list_devices` never
-- writes behind its buffer, and the loops over its result find exactly the names that are not empty,
-- the kernel's first.
pub ipc_list_devices-names_in :
    (fresh : ℕ → Bytes)
    → ((n : ℕ) → length (fresh n) ≡ n)
    → (kernel userspace : Search) → kernel.failed ≡ false
    → userspace.failed ≡ false
    → All (λ s. contains 0 s ≡ false) (kernel.names ++ userspace.names)
    → length (joined (kernel.names ++ userspace.names)) + 1 < 2 ^ 64
    → (result : Bytes) × (ipc_list_devices fresh kernel userspace ≡ listed result)
      × (names_in [] result ≡ filled_names (kernel.names ++ userspace.names))
unfolding ipc_list_devices
ipc_list_devices-names_in fresh fresh_len kernel userspace ok found plain small =
    let start : StringList = record { buffer = []; len = 0; cap = 0 } in
    let start-Holds : Holds [] start = record {
      size = refl;
      whole = refl;
      cap_lt = omega arith;
      rest = [];
      parts = refl;
      ended = inl (refl, refl);
    } in
    let whole = joined-append kernel.names userspace.names in
    let small_parts : length (joined kernel.names) + length (joined userspace.names) + 1 < 2 ^ 64 =
      omega (
        arith,
        small,
        ap length whole,
        length-append (joined kernel.names) (joined userspace.names),
      ) in
    let (first, added, held) =
      add_all-Holds fresh fresh_len [] kernel.names start start-Holds
        (omega (arith, small_parts)) in
    let (second, more, all) =
      add_all-Holds fresh fresh_len (joined kernel.names) userspace.names first held
        (omega (arith, small_parts)) in
    let list = subst (λ t. Holds t second) (sym whole) all in
    (
      if second.cap == 0 then 0 ∷ [] else second.buffer,
      rw (ipc_list_devices, added, ok, more, found) refl,
      Holds-names_in (kernel.names ++ userspace.names) second list plain,
    )
