-- ===== src/Ipc/Buffer.antt =====
-- src/ipc.c: the writes of `string_list_add` stay inside its buffer.
use mathlib.Core.List.{append_assoc}
use wireguard_tools.Ipc.{StringList, write, grown, room_for, put, string_list_add}
use wireguard_tools.Prelude.{
  ℕ, zero, suc, ◌+◌, ◌-◌, ◌^◌, ◌%◌, ◌≤◌, ◌<◌, ◌≡◌, ◌∙◌, ◌⊎◌, refl, sym, ap, arith, true, false,
  some, [], ◌∷◌, ◌++◌, leb, ◌==◌, Bytes, length, length-append, take, drop, Bool-cases, inl, inr,
  take_all,
}

-- The list holds a text, behind which a buffer has a second NUL.
pub record Holds (text : Bytes) (list : StringList) : Type 0 where
  pub size : list.len ≡ length text
  pub whole : length list.buffer ≡ list.cap
  pub cap_lt : list.cap < 2 ^ 64
  pub rest : Bytes
  pub parts : list.buffer ≡ text ++ rest
  pub ended : ((rest ≡ []) × (text ≡ [])) ⊎ ((tail : Bytes) × (rest ≡ 0 ∷ tail))

take_front : (a b : Bytes) → take (length a) (a ++ b) ≡ a
take_front [] b = refl
take_front (x ∷ a) b = ap (λ (t : Bytes). x ∷ t) (take_front a b)

drop_front : (a : Bytes) (n : ℕ) (b : Bytes) → drop (length a + n) (a ++ b) ≡ drop n b
drop_front [] n b = ap (λ k. drop k b) (omega arith)
drop_front (x ∷ a) n b =
    let more : length (x ∷ a) + n ≡ suc (length a + n) = omega arith in rw more (drop_front a n b)

write-append :
    (at : ℕ) (a bytes rest : Bytes)
    → at ≡ length a
    → length bytes ≤ length rest
    → write at bytes (a ++ rest) ≡ some (a ++ (bytes ++ drop (length bytes) rest))
unfolding write
write-append at a bytes rest e h =
    let fits : leb (length a + length bytes) (length (a ++ rest)) ≡ true =
      ground (arith, length-append a rest) in
    rw (e, write) (rw (fits, take_front a rest, drop_front a (length bytes) rest) refl)

length-drop : (n : ℕ) (s : Bytes) → length (drop n s) ≡ length s - n
length-drop zero s = omega arith
length-drop (suc n) [] = omega arith
length-drop (suc n) (c ∷ s) = omega (arith, length-drop n s)

-- A list whose buffer has room for more behind its text.
record HasRoom (text : Bytes) (need : ℕ) (list : StringList) : Type 0 where
  size : list.len ≡ length text
  whole : length list.buffer ≡ list.cap
  cap_lt : list.cap < 2 ^ 64
  rest : Bytes
  parts : list.buffer ≡ text ++ rest
  enough : need ≤ length rest

-- The two writes into such a buffer.
put-Holds :
    (text str : Bytes) (room : StringList)
    → HasRoom text (length str + 1 + 1) room
    → (next : StringList) × (put str room ≡ some next) × Holds (text ++ (str ++ 0 ∷ [])) next
unfolding put
put-Holds text str room h =
    let behind = drop (length (str ++ 0 ∷ [])) h.rest in
    let copied : write room.len (str ++ 0 ∷ []) (text ++ h.rest)
        ≡ some ((text ++ (str ++ 0 ∷ [])) ++ behind) =
      write-append room.len text (str ++ 0 ∷ []) h.rest h.size
        (omega (arith, h.enough, length-append str (0 ∷ [])))
      ∙ ap some (sym (append_assoc text (str ++ 0 ∷ []) behind)) in
    let ended : write (room.len + (length str + 1)) (0 ∷ []) ((text ++ (str ++ 0 ∷ [])) ++ behind)
        ≡ some ((text ++ (str ++ 0 ∷ [])) ++ (0 ∷ drop 1 behind)) =
      write-append (room.len + (length str + 1)) (text ++ (str ++ 0 ∷ [])) (0 ∷ []) behind
        (omega (arith, h.size, length-append str (0 ∷ []), length-append text (str ++ 0 ∷ [])))
        (omega (
          arith,
          h.enough,
          length-append str (0 ∷ []),
          length-drop (length (str ++ 0 ∷ [])) h.rest,
        )) in
    let next : StringList = record room {
      buffer = (text ++ (str ++ 0 ∷ [])) ++ (0 ∷ drop 1 behind);
      len = room.len + (length str + 1);
    } in
    (
      next,
      rw (put, h.parts, copied, ended) refl,
      record {
        size =
            omega (arith, h.size, length-append str (0 ∷ []), length-append text (str ++ 0 ∷ []));
        whole = omega (
          arith,
          h.whole,
          ap length h.parts,
          length-append text h.rest,
          h.enough,
          length-append (text ++ (str ++ 0 ∷ [])) (0 ∷ drop 1 behind),
          length-append str (0 ∷ []),
          length-append text (str ++ 0 ∷ []),
          length-drop 1 behind,
          length-drop (length (str ++ 0 ∷ [])) h.rest,
        );
        cap_lt = h.cap_lt;
        rest = 0 ∷ drop 1 behind;
        parts = refl;
        ended = inr (drop 1 behind, refl);
      },
    )

module _ (fresh : ℕ → Bytes) (fresh_len : (n : ℕ) → length (fresh n) ≡ n) where
  grown-HasRoom :
      (text : Bytes) (len : ℕ) (list : StringList)
      → Holds text list
      → list.cap ≤ length text + len
      → length text + len + 1 < 2 ^ 64
      → HasRoom text (len + 1) (grown fresh ((list.len + len + 1) % 2 ^ 64) list)
  unfolding grown
  grown-HasRoom text len list h full small =
      let list' = grown fresh ((list.len + len + 1) % 2 ^ 64) list in
      let larger : (list.len + len + 1 ≤ list'.cap) × (list'.cap < 2 ^ 64) =
        ground (arith, h.size) in
      let bytes = fresh (list'.cap - list.cap) in
      let count : length (list.buffer ++ bytes) ≡ list'.cap = omega (
        arith,
        length-append list.buffer bytes,
        fresh_len (list'.cap - list.cap),
        h.whole,
        h.size,
        larger.0,
      ) in
      let all : list'.buffer ≡ list.buffer ++ bytes =
        take_all list'.cap (list.buffer ++ bytes) (omega (arith, count)) in
      record {
        size = h.size;
        whole = ap length all ∙ count;
        cap_lt = larger.1;
        rest = h.rest ++ bytes;
        parts = all ∙ ap (λ b. b ++ bytes) h.parts ∙ append_assoc text h.rest bytes;
        enough = omega (
          arith,
          larger.0,
          h.size,
          count,
          ap length h.parts,
          length-append text h.rest,
          length-append h.rest bytes,
          length-append list.buffer bytes,
        );
      }

  room_for-HasRoom :
      (text : Bytes) (len : ℕ) (list : StringList)
      → Holds text list
      → length text + len + 1 < 2 ^ 64
      → HasRoom text (len + 1) (room_for fresh len list)
  unfolding room_for
  room_for-HasRoom text len list h small =
      let count : list.cap ≡ length text + length h.rest =
        omega (arith, h.whole, ap length h.parts, length-append text h.rest) in
      elim (Bool-cases (leb ((list.cap + 2 ^ 64 - list.len) % 2 ^ 64) len)) [
        | inl full ↦
            rw (full, room_for)
              (grown-HasRoom text len list h (ground (arith, h.size, h.cap_lt)) small)
        | inr roomy ↦
            rw (roomy, room_for)
              (record {
                size = h.size;
                whole = h.whole;
                cap_lt = h.cap_lt;
                rest = h.rest;
                parts = h.parts;
                enough = ground (arith, h.size, h.cap_lt);
              })
      ]

  pub string_list_add-Holds :
      (text str : Bytes) (list : StringList)
      → Holds text list
      → length text + length str + 2 < 2 ^ 64
      → 0 < length str
      → (next : StringList) × (string_list_add fresh list str ≡ some next)
        × Holds (text ++ (str ++ 0 ∷ [])) next
  unfolding string_list_add
  string_list_add-Holds text str list h small some_char =
      let nonempty : length str + 1 == 1 ≡ false = ground arith in
      rw (nonempty, string_list_add)
        (put-Holds text str _ (room_for-HasRoom text (length str + 1) list h (omega arith)))
