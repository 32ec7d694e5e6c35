-- ===== src/Security/Blocked.antt =====
-- The addresses that `isBlockedIP` refuses, as ranges.
use dalgo2http.Prelude.{
  ℕ, ◌+◌, ◌*◌, ◌/◌, ◌<◌, ◌≡◌, refl, Bool, true, false, not, ◌&&◌, ◌||◌, List, [], ◌∷◌, ◌++◌, nat_eq,
  arith, any, length,
}
use dalgo2http.Runtime.{Bytes}
use dalgo2http.Security.{v4_in_v6, to4, or_else, is_loopback, is_blocked_ip}

-- a range of IPv4 addresses: those that agree with `base` once divided by `size`
pub record Cidr : Type 0 where
  pub base : ℕ
  pub size : ℕ

abbrev pub v4_number : ℕ → ℕ → ℕ → ℕ → ℕ
v4_number a b c d = ((a * 256 + b) * 256 + c) * 256 + d

abbrev pub in_cidr : ℕ → Cidr → Bool
in_cidr n r = nat_eq (n / r.size) (r.base / r.size)

abbrev pub loopback_range : Cidr
loopback_range = record { base = 0x7f000000; size = 0x1000000 }

-- 10.0.0.0/8, 172.16.0.0/12, 192.168.0.0/16, 169.254.0.0/16, 224.0.0.0/4, 0.0.0.0/32
abbrev pub forbidden_ranges : List Cidr
forbidden_ranges =
    record { base = 0x0a000000; size = 0x1000000 }
    ∷ record { base = 0xac100000; size = 0x100000 }
    ∷ record { base = 0xc0a80000; size = 0x10000 }
    ∷ record { base = 0xa9fe0000; size = 0x10000 }
    ∷ record { base = 0xe0000000; size = 0x10000000 }
    ∷ record { base = 0; size = 1 }
    ∷ []

-- The tests on the octets, for each range.
module _ (a b c d : ℕ) (ha : a < 256) (hb : b < 256) (hc : c < 256) (hd : d < 256) where
  by_first : (k : ℕ) → nat_eq (v4_number a b c d / 0x1000000) k ≡ nat_eq a k
  by_first k = ground arith

  by_high_four : (k : ℕ) → nat_eq (v4_number a b c d / 0x10000000) k ≡ nat_eq (a / 16) k
  by_high_four k = ground arith

  private_172 : nat_eq (v4_number a b c d / 0x100000) 2753 ≡ (nat_eq a 172 && nat_eq (b / 16) 1)
  private_172 = ground arith

  private_192 : nat_eq (v4_number a b c d / 0x10000) 49320 ≡ (nat_eq a 192 && nat_eq b 168)
  private_192 = ground arith

  link_local : nat_eq (v4_number a b c d / 0x10000) 43518 ≡ (nat_eq a 169 && nat_eq b 254)
  link_local = ground arith

  unspecified :
      nat_eq (v4_number a b c d / 1) 0
      ≡ (nat_eq a 0 && (nat_eq b 0 && (nat_eq c 0 && (nat_eq d 0 && true))))
  unspecified = ground arith

  -- 224.0.0.0/24 lies in 224.0.0.0/4
  local_in_multicast : (nat_eq a 224 && nat_eq b 0 && nat_eq c 0) ≡ true → nat_eq (a / 16) 14 ≡ true
  local_in_multicast h = ground arith

-- An IPv4 address is blocked exactly when it lies in 127.0.0.0/8 and loopback is not allowed, or in
-- one of the private, link-local, multicast and unspecified ranges.
pub is_blocked_ip-v4 :
    (a b c d : ℕ) (allow : Bool)
    → a < 256
    → b < 256
    → c < 256
    → d < 256
    → is_blocked_ip (a ∷ b ∷ c ∷ d ∷ []) allow ≡ (
        in_cidr (v4_number a b c d) loopback_range && not allow
        || any (in_cidr (v4_number a b c d)) forbidden_ranges)
unfolding is_blocked_ip
is_blocked_ip-v4 a b c d allow ha hb hc hd =
    rw
      (
        by_first a b c d ha hb hc hd 127,
        by_first a b c d ha hb hc hd 10,
        by_high_four a b c d ha hb hc hd 14,
        private_172 a b c d ha hb hc hd,
        private_192 a b c d ha hb hc hd,
        link_local a b c d ha hb hc hd,
        unspecified a b c d ha hb hc hd,
      )
      (ground arith)

-- An IPv4 address in its IPv6 form is treated as the IPv4 address.
pub is_blocked_ip-mapped :
    (v4 : Bytes) (allow : Bool)
    → length v4 ≡ 4
    → is_blocked_ip (v4_in_v6 ++ v4) allow ≡ is_blocked_ip v4 allow
unfolding is_blocked_ip
is_blocked_ip-mapped (a ∷ b ∷ c ∷ d ∷ []) allow h = refl
is_blocked_ip-mapped _ allow h = absurd (omega arith)

-- Allowing loopback unblocks nothing but loopback addresses, and blocks nothing.
pub is_blocked_ip-allow :
    (ip : Bytes)
    → is_blocked_ip ip true ≡ (is_blocked_ip ip false && not (is_loopback (or_else (to4 ip) ip)))
unfolding is_blocked_ip
is_blocked_ip-allow ip = ground arith
