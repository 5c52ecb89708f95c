-- ===== src/Config/Netmask/HostBits.antt =====
-- src/config.c: `validate_netmask` against the address as one number.
use native.Mathlib.Nat.{
  zero-mod, mod-one, pow-suc, one-le-pow, mul-add-div, div-eq_of_lt, mod-lt, div-add-mod,
  mod-eq_of_lt, mul-add-mod_self_right,
}
use wireguard_tools.Bits.{bit_and_ones}
use wireguard_tools.Config.Netmask.{word, host_mask, masked_words, validate_words, validate_netmask}
use wireguard_tools.Containers.{Family, inet, inet6, AllowedIp}
use wireguard_tools.Prelude.{
  ℕ, zero, suc, ◌+◌, ◌-◌, ◌*◌, ◌/◌, ◌%◌, ◌^◌, ◌<◌, ◌≤◌, bit_and, true, false, not, ◌≡◌, ◌↔◌, ◌⊎◌,
  ◌∙◌, inl, inr, refl, ap, arith, ltb, leb, ◌==◌, if◌then◌else◌, [], ◌∷◌, Bytes, IsBytes, get_or,
}

-- The first `n` words of an address as one number, the first word the most significant.
abbrev pub address : Bytes → ℕ → ℕ
address ip zero = 0
address ip (suc n) = address ip n * 2 ^ 32 + word ip n

byte_at_lt : (s : Bytes) (i : ℕ) → IsBytes s → get_or s i 0 < 256
byte_at_lt [] i h = omega arith
byte_at_lt (x ∷ s) zero h = h.0
byte_at_lt (x ∷ s) (suc i) h = byte_at_lt s i h.1

word-lt : (ip : Bytes) (i : ℕ) → IsBytes ip → word ip i < 2 ^ 32
unfolding word
word-lt ip i h = omega (
  arith,
  byte_at_lt ip (4 * i) h,
  byte_at_lt ip (4 * i + 1) h,
  byte_at_lt ip (4 * i + 2) h,
  byte_at_lt ip (4 * i + 3) h,
)

pow_add : (a b : ℕ) → 2 ^ (a + b) ≡ 2 ^ a * 2 ^ b
pow_add a zero = let e : a + 0 ≡ a = omega arith in rw e (omega arith)
pow_add a (suc b) =
    let e : a + suc b ≡ suc (a + b) = omega arith in
    rw e (omega (arith, pow-suc 2 (a + b), ap (λ (t : ℕ). 2 ^ a * t) (pow-suc 2 b), pow_add a b))

-- Dividing the full mask by a power of two leaves the mask of the bits behind it.
ones_shifted : (a b : ℕ) → (2 ^ (a + b) - 1) / 2 ^ a ≡ 2 ^ b - 1
ones_shifted a b =
    let p = one-le-pow a 2 (omega arith) in
    let q = one-le-pow b 2 (omega arith) in
    let less : 2 ^ b ≡ 2 ^ b - 1 + 1 = omega arith in
    let split : 2 ^ (a + b) - 1 ≡ 2 ^ a * (2 ^ b - 1) + (2 ^ a - 1) =
      omega (arith, pow_add a b, p, q, ap (λ (t : ℕ). 2 ^ a * t) less) in
    let below : 2 ^ a - 1 < 2 ^ a = omega arith in
    rw split (mul-add-div p (2 ^ b - 1) (2 ^ a - 1) ∙ rw (div-eq_of_lt below) (omega arith))

-- In the word that the prefix ends in, the mask selects the host bits.
partial_word :
    (ip : Bytes) (cidr i : ℕ)
    → 32 * i < cidr
    → cidr < 32 * (i + 1)
    → bit_and (word ip i) (host_mask cidr i) ≡ word ip i % 2 ^ (32 * (i + 1) - cidr)
unfolding host_mask
partial_word ip cidr i lo hi =
    let k = 32 * (i + 1) - cidr in
    let inside : ltb (32 * i) cidr ≡ true = ground arith in
    let sum : 32 ≡ (cidr - 32 * i) + k = omega arith in
    let ones : (2 ^ 32 - 1) / 2 ^ (cidr - 32 * i) ≡ 2 ^ k - 1 =
      ap (λ (t : ℕ). (2 ^ t - 1) / 2 ^ (cidr - 32 * i)) sum ∙ ones_shifted (cidr - 32 * i) k in
    rw (inside, ones) (bit_and_ones k (word ip i))

-- Low bits are not touched by a multiple of 2 ^ 32.
low_bits : (v w k : ℕ) → k ≤ 32 → (v * 2 ^ 32 + w) % 2 ^ k ≡ w % 2 ^ k
low_bits v w k h =
    let sum : 32 ≡ (32 - k) + k = omega arith in
    let pow : 2 ^ 32 ≡ 2 ^ (32 - k) * 2 ^ k = ap (λ (t : ℕ). 2 ^ t) sum ∙ pow_add (32 - k) k in
    let e : v * 2 ^ 32 ≡ v * 2 ^ (32 - k) * 2 ^ k = omega (arith, ap (λ (t : ℕ). v * t) pow) in
    rw e (mul-add-mod_self_right (v * 2 ^ (32 - k)) (2 ^ k) w)

-- The remainder of a number with a lowest digit `w`.
digit-mod : (v w q b : ℕ) → w < b → 0 < q → (v * b + w) % (q * b) ≡ v % q * b + w
digit-mod v w q b h k =
    let r_lt : v % q < q = mod-lt v k in
    let small : v % q * b + w < q * b = grind arith in
    let e : v * b + w ≡ v / q * (q * b) + (v % q * b + w) =
      omega (arith, ap (λ (t : ℕ). t * b) (div-add-mod v q)) in
    rw e (mul-add-mod_self_right (v / q) (q * b) (v % q * b + w) ∙ mod-eq_of_lt small)

-- It vanishes exactly if the digit is 0 and the rest is divisible.
divisible_iff :
    (v w q b : ℕ) → w < b → 0 < q → ((v * b + w) % (q * b) ≡ 0) ↔ ((w ≡ 0) × (v % q ≡ 0))
divisible_iff v w q b h k = (
  λ e.
      let e' : v % q * b + w ≡ 0 = omega (arith, digit-mod v w q b h k) in
      (omega arith, grind arith),
  λ e. rw (digit-mod v w q b h k, e.1, e.0) (omega arith),
)

-- The host part of the first `n` words is 0.
abbrev NoHostBits : Bytes → ℕ → ℕ → Type 0
NoHostBits ip cidr n = address ip n % 2 ^ (32 * n - cidr) ≡ 0

-- One round of the loop.
masked_words_step :
    (ip : Bytes) (cidr i m : ℕ)
    → cidr < 32 * (i + 1)
    → bit_and (word ip i) (host_mask cidr i) ≡ m
    → masked_words ip cidr (suc i) ≡ (if not (m == 0) then false else masked_words ip cidr i)
unfolding masked_words
masked_words_step ip cidr i m h e =
    let more : leb (32 * (i + 1)) cidr ≡ false = ground arith in rw (more, e) refl

masked_words_past : (ip : Bytes) (cidr i : ℕ) → 32 * i ≤ cidr → masked_words ip cidr i ≡ true
unfolding masked_words
masked_words_past ip cidr zero h = refl
masked_words_past ip cidr (suc i) h =
    let done : leb (32 * (i + 1)) cidr ≡ true = ground arith in rw done refl

NoHostBits-past : (ip : Bytes) (cidr n : ℕ) → 32 * n ≤ cidr → NoHostBits ip cidr n
NoHostBits-past ip cidr n h =
    let e : 32 * n - cidr ≡ 0 = omega arith in rw e (mod-one (address ip n))

-- The prefix ends in word `i`.
partial_iff :
    (ip : Bytes) (cidr i : ℕ)
    → 32 * i < cidr
    → cidr < 32 * (i + 1)
    → (masked_words ip cidr (suc i) ≡ true) ↔ NoHostBits ip cidr (suc i)
partial_iff ip cidr i lo hi =
    let k = 32 * (i + 1) - cidr in
    let same : 32 * suc i - cidr ≡ k = omega arith in
    rw
      (
        masked_words_step ip cidr i _ hi (partial_word ip cidr i lo hi),
        masked_words_past ip cidr i (omega arith),
        same,
        low_bits (address ip i) (word ip i) k (omega arith),
      )
      (λ e. ground arith, λ e. ground arith)

-- The prefix ends before word `i`.
whole_iff :
    (ip : Bytes) (cidr i : ℕ)
    → IsBytes ip
    → cidr ≤ 32 * i
    → (masked_words ip cidr i ≡ true) ↔ NoHostBits ip cidr i
    → (masked_words ip cidr (suc i) ≡ true) ↔ NoHostBits ip cidr (suc i)
whole_iff ip cidr i h hi ih =
    let w_lt = word-lt ip i h in
    let full : bit_and (word ip i) (host_mask cidr i) ≡ word ip i =
      unfold host_mask in ground (arith, bit_and_ones 32 (word ip i)) in
    let sum : 32 * suc i - cidr ≡ (32 * i - cidr) + 32 = omega arith in
    let split =
      divisible_iff (address ip i) (word ip i) (2 ^ (32 * i - cidr)) (2 ^ 32) w_lt
        (one-le-pow _ 2 (omega arith)) in
    rw (masked_words_step ip cidr i _ (omega arith) full, sum, pow_add (32 * i - cidr) 32)
      (
        λ e. split.1 (ground arith, ih.0 (ground arith)),
        λ e. let both = split.0 e in rw (both.0, ih.1 both.1) refl,
      )

masked_words_iff :
    (ip : Bytes) (cidr n : ℕ) → IsBytes ip → (masked_words ip cidr n ≡ true) ↔ NoHostBits ip cidr n
masked_words_iff ip cidr zero h = (λ _. zero-mod _, λ _. unfold masked_words in refl)
masked_words_iff ip cidr (suc i) h = elim (le-or-lt (32 * suc i) cidr) [
  | inl past ↦
      (λ _. NoHostBits-past ip cidr (suc i) past, λ _. masked_words_past ip cidr (suc i) past)
  | inr inside ↦ elim (le-or-lt cidr (32 * i)) [
    | inl before ↦ whole_iff ip cidr i h before (masked_words_iff ip cidr i h)
    | inr within ↦ partial_iff ip cidr i within (omega arith)
  ]
]
  where
    le-or-lt : (a b : ℕ) → (a ≤ b) ⊎ (b < a)
    le-or-lt a b = omega arith

-- How many words the loop checks, and the whole width in bits.
abbrev pub family_words : Family → ℕ
family_words inet = 1
family_words inet6 = 4
family_words _ = 0

-- If the address is of bytes: for an IPv4 or IPv6 address, `validate_netmask` answers yes exactly
-- if all bits behind the prefix are 0, that is, if the address as one number is a multiple of 2 ^
-- (width - cidr).
pub validate_netmask_iff :
    (a : AllowedIp)
    → IsBytes a.ip
    → (validate_netmask a ≡ true)
      ↔ (address a.ip (family_words a.family) % 2 ^ (32 * family_words a.family - a.cidr) ≡ 0)
unfolding validate_netmask
validate_netmask_iff a h = by_family a.family
  where
    by_family :
        (f : Family)
        → (validate_words f a.ip a.cidr ≡ true)
          ↔ (address a.ip (family_words f) % 2 ^ (32 * family_words f - a.cidr) ≡ 0)
    by_family inet = unfold validate_words in masked_words_iff a.ip a.cidr 1 h
    by_family inet6 = unfold validate_words in masked_words_iff a.ip a.cidr 4 h
    by_family _ = (λ _. zero-mod _, λ _. unfold validate_words in refl)
