-- ===== src/Security.antt =====
-- security.go: which addresses may be dialled, and the guarded dialer. An address is its bytes, 4 or
-- 16 of them, and the tests of `net.IP` are those of Go's net package.
pub mod Blocked
pub mod Dialer
use dalgo2http.Prelude.{
  ℕ, zero, suc, String, Bool, true, false, not, ◌&&◌, ◌||◌, List, [], ◌∷◌, ◌++◌, Option, none, some,
  nat_eq, leb, ltb, ◌/◌, ◌%◌, if◌then◌else◌, take, drop, length,
}
use dalgo2http.Errors.{
  Error, sentinel, errorf, errorf_both, address_blocked, redirect_not_allowed, Result, ok, err,
  panic, ◌>>=◌, wrap_error,
}
use dalgo2http.Runtime.{Go, Bytes}
use dalgo2http.Context.{Context, insecure_loopback_from}

abbrev pub bytes_eq : Bytes → Bytes → Bool
bytes_eq [] [] = true
bytes_eq (a ∷ ip) (b ∷ other) = nat_eq a b && bytes_eq ip other
bytes_eq _ _ = false

-- the prefix of an IPv4 address in IPv6 form: ten zeros and two times 255
abbrev pub v4_in_v6 : Bytes
v4_in_v6 = 0 ∷ 0 ∷ 0 ∷ 0 ∷ 0 ∷ 0 ∷ 0 ∷ 0 ∷ 0 ∷ 0 ∷ 255 ∷ 255 ∷ []

abbrev pub unspecified_v6 : Bytes
unspecified_v6 = 0 ∷ 0 ∷ 0 ∷ 0 ∷ 0 ∷ 0 ∷ 0 ∷ 0 ∷ 0 ∷ 0 ∷ 0 ∷ 0 ∷ 0 ∷ 0 ∷ 0 ∷ 0 ∷ []

abbrev pub loopback_v6 : Bytes
loopback_v6 = 0 ∷ 0 ∷ 0 ∷ 0 ∷ 0 ∷ 0 ∷ 0 ∷ 0 ∷ 0 ∷ 0 ∷ 0 ∷ 0 ∷ 0 ∷ 0 ∷ 0 ∷ 1 ∷ []

-- `ip.To4()`
unfoldable pub to4 : Bytes → Option Bytes
to4 ip =
    if nat_eq (length ip) 4
    then some ip
    else if nat_eq (length ip) 16 && bytes_eq (take 12 ip) v4_in_v6
    then some (drop 12 ip)
    else none

-- a byte of an address
abbrev pub byte : ℕ → Bytes → ℕ
byte i [] = 0
byte zero (b ∷ bs) = b
byte (suc i) (b ∷ bs) = byte i bs

-- a test that `net.IP` makes on the four bytes if there are four, and on the whole address if not
abbrev by_version : (Bytes → Bool) → (Bytes → Bool) → Bytes → Option Bytes → Bool
by_version v4_test v6_test ip none = nat_eq (length ip) 16 && v6_test ip
by_version v4_test v6_test ip (some v4) = v4_test v4

pub is_loopback : Bytes → Bool
unfolding to4
is_loopback ip = by_version (λ b. nat_eq (byte 0 b) 127) (λ b. bytes_eq b loopback_v6) ip (to4 ip)

-- 10.0.0.0/8, 172.16.0.0/12, 192.168.0.0/16; fc00::/7
is_private : Bytes → Bool
unfolding to4
is_private ip =
    by_version
      (λ b.
        nat_eq (byte 0 b) 10
        || (nat_eq (byte 0 b) 172 && nat_eq (byte 1 b / 16) 1)
        || (nat_eq (byte 0 b) 192 && nat_eq (byte 1 b) 168))
      (λ b. nat_eq (byte 0 b / 2) 126) ip (to4 ip)

-- 169.254.0.0/16; fe80::/10
is_link_local_unicast : Bytes → Bool
unfolding to4
is_link_local_unicast ip =
    by_version (λ b. nat_eq (byte 0 b) 169 && nat_eq (byte 1 b) 254)
      (λ b. nat_eq (byte 0 b) 254 && nat_eq (byte 1 b / 64) 2) ip (to4 ip)

-- 224.0.0.0/24; ff02::/16 and its like
is_link_local_multicast : Bytes → Bool
unfolding to4
is_link_local_multicast ip =
    by_version (λ b. nat_eq (byte 0 b) 224 && nat_eq (byte 1 b) 0 && nat_eq (byte 2 b) 0)
      (λ b. nat_eq (byte 0 b) 255 && nat_eq (byte 1 b % 16) 2) ip (to4 ip)

-- no four bytes are such an address
is_interface_local_multicast : Bytes → Bool
is_interface_local_multicast ip =
    nat_eq (length ip) 16 && nat_eq (byte 0 ip) 255 && nat_eq (byte 1 ip % 16) 1

-- 224.0.0.0/4; ff00::/8
is_multicast : Bytes → Bool
unfolding to4
is_multicast ip =
    by_version (λ b. nat_eq (byte 0 b / 16) 14) (λ b. nat_eq (byte 0 b) 255) ip (to4 ip)

is_unspecified : Bytes → Bool
unfolding to4
is_unspecified ip =
    by_version (λ b. bytes_eq b (0 ∷ 0 ∷ 0 ∷ 0 ∷ [])) (λ b. bytes_eq b unspecified_v6) ip (to4 ip)

abbrev pub or_else : Option Bytes → Bytes → Bytes
or_else none ip = ip
or_else (some v4) ip = v4

-- the rest of `isBlockedIP`, on the normalised address
blocked_normalized : Bytes → Bool → Bool
unfolding is_loopback is_private is_link_local_unicast is_link_local_multicast
    is_interface_local_multicast is_multicast is_unspecified
blocked_normalized ip allow_loopback =
    if is_loopback ip
    then not allow_loopback
    else is_private ip
      || is_link_local_unicast ip
      || is_link_local_multicast ip
      || is_interface_local_multicast ip
      || is_multicast ip
      || is_unspecified ip

unfoldable pub is_blocked_ip : Bytes → Bool → Bool
unfolding to4 blocked_normalized
is_blocked_ip ip allow_loopback = blocked_normalized (or_else (to4 ip) ip) allow_loopback

-- What the dialer asks of the network, in order.
pub data NetEvent : Type 0 where
  resolve : String → NetEvent
  dial : String → String → NetEvent

-- The network answers each request after what has been asked of it before, so a resolver may answer
-- one name differently each time. A connection is a number.
pub record Network : Type 0 where
  pub lookup_ip_addr : List NetEvent → String → Result (List Bytes)
  pub dial_context : List NetEvent → String → String → Result ℕ

first_allowed : List Bytes → Bool → Option Bytes
unfolding is_blocked_ip
first_allowed [] allow = none
first_allowed (ip ∷ ips) allow = if is_blocked_ip ip allow then first_allowed ips allow else some ip

module _ (g : Go) (net : Network) where
  -- a dial of an address as a literal, after the given requests
  dial_ip : List NetEvent → String → Bytes → String → Result ℕ × List NetEvent
  dial_ip asked network ip port =
      let target = g.join_host_port (g.ip_string ip) port in
      (net.dial_context asked network target, asked ++ dial network target ∷ [])

  -- the host is a literal address
  dial_literal : Bool → String → Bytes → String → Result ℕ × List NetEvent
  unfolding is_blocked_ip dial_ip
  dial_literal allow network ip port =
      if is_blocked_ip ip allow
      then (err (errorf "dalgo2http: %w: %s" (sentinel address_blocked)), [])
      else dial_ip [] network ip port

  -- the loop over what the resolver has answered
  dial_resolved : Bool → String → String → String → Result (List Bytes) → Result ℕ × List NetEvent
  unfolding first_allowed dial_ip
  dial_resolved allow network host port (ok addrs) = elim (first_allowed addrs allow) [
    | some ip ↦ dial_ip (resolve host ∷ []) network ip port
    | none ↦ (
      err (
          errorf "dalgo2http: %w: every address %q resolved to is blocked"
            (sentinel address_blocked)),
      resolve host ∷ [],
    )
  ]
  dial_resolved allow network host port (err e) =
      (err (errorf "dalgo2http: resolve %q: %w" e), resolve host ∷ [])
  dial_resolved allow network host port panic = (panic, resolve host ∷ [])

  dial_host : Bool → String → Result (String × String) → Result ℕ × List NetEvent
  unfolding dial_literal dial_resolved
  dial_host allow network (ok (host, port)) = elim (g.parse_ip host) [
    | some ip ↦ dial_literal allow network ip port
    | none ↦ dial_resolved allow network host port (net.lookup_ip_addr [] host)
  ]
  dial_host allow network (err e) =
      (err (errorf "dalgo2http: %w: invalid dial address %q: %v" (sentinel address_blocked)), [])
  dial_host allow network panic = (panic, [])

  unfoldable pub guarded_dial_context : Context → String → String → Result ℕ × List NetEvent
  unfolding dial_host insecure_loopback_from
  guarded_dial_context ctx network addr =
      dial_host (insecure_loopback_from ctx) network (g.split_host_port addr)

-- the default `CheckRedirect`
unfoldable pub deny_redirect : Result (Unit {0})
deny_redirect = err (sentinel redirect_not_allowed)

-- How a client opens connections, and what it does about redirects: the functions of this package, or
-- what a caller's own client brings, which a number names.
pub data Transport : Type 0 where
  guarded_transport : Transport
  custom_transport : ℕ → Transport

pub data RedirectPolicy : Type 0 where
  denied : RedirectPolicy
  custom_policy : ℕ → RedirectPolicy

-- the fields of `http.Client` that the program sets
pub record HttpClient : Type 0 where
  pub transport : Transport
  pub check_redirect : RedirectPolicy

abbrev pub new_default_client : HttpClient
new_default_client = record { transport = guarded_transport; check_redirect = denied }

-- `if client == nil { client = newDefaultClient() }`
abbrev pub client_or_default : Option HttpClient → HttpClient
client_or_default none = new_default_client
client_or_default (some client) = client
