-- ===== src/Security/Dialer.antt =====
-- What the guarded dialer asks of the network.
use mathlib.Core.List.{Memᴰ}
use dalgo2http.Prelude.{
  ℕ, String, ◌≡◌, refl, sym, Bool, true, false, List, [], ◌∷◌, none, some, arith, Bool-cases,
  Option-cases, inl, inr, subst, ◌⊎◌,
}
use dalgo2http.Context.{Context, insecure_loopback_from}
use dalgo2http.Errors.{Error, error_is, address_blocked, Result, ok, err, panic}
use dalgo2http.Runtime.{Go, Bytes}
use dalgo2http.Security.{
  NetEvent, resolve, dial, Network, is_blocked_ip, first_allowed, dial_literal, dial_resolved,
  dial_host, guarded_dial_context,
}

module _ (g : Go) (net : Network) (host : String) where
  -- The address is the host itself, read as a literal, or in the resolver's first answer for it.
  pub data IsCandidate (ip : Bytes) : Type 0 where
    literal : g.parse_ip host ≡ some ip → IsCandidate ip
    resolved :
        (addrs : List Bytes)
        → g.parse_ip host ≡ none
        → net.lookup_ip_addr [] host ≡ ok addrs
        → Memᴰ ip addrs
        → IsCandidate ip

  -- What is asked of the network: nothing, or a lookup of the host, and then perhaps one dial, of the
  -- text of a candidate that is not blocked.
  pub data IsGuarded (allow : Bool) (network port : String) : List NetEvent → Type 0 where
    nothing : IsGuarded allow network port []
    lookup_only : IsGuarded allow network port (resolve host ∷ [])
    dial_only :
        (ip : Bytes)
        → IsCandidate ip
        → is_blocked_ip ip allow ≡ false
        → IsGuarded allow network port (dial network (g.join_host_port (g.ip_string ip) port) ∷ [])
    lookup_dial :
        (ip : Bytes)
        → IsCandidate ip
        → is_blocked_ip ip allow ≡ false
        → IsGuarded allow network port
            (resolve host ∷ dial network (g.join_host_port (g.ip_string ip) port) ∷ [])

first_allowed-mem :
    (addrs : List Bytes) (allow : Bool) (ip : Bytes)
    → first_allowed addrs allow ≡ some ip
    → Memᴰ ip addrs × (is_blocked_ip ip allow ≡ false)
unfolding first_allowed
first_allowed-mem [] allow ip e = cc
first_allowed-mem (a ∷ addrs) allow ip e = elim (Bool-cases (is_blocked_ip a allow)) [
  | inl blocked ↦
      let (m, free) = first_allowed-mem addrs allow ip (rw (blocked, first_allowed) at e) in
      (Memᴰ.tail m, free)
  | inr free ↦
      let same : a ≡ ip = ground arith in
      (Memᴰ.head (sym same), subst (λ x. is_blocked_ip x allow ≡ false) same free)
]

module _ (g : Go) (net : Network) (allow : Bool) (network host port : String) where
  literal-IsGuarded :
      (ip : Bytes)
      → g.parse_ip host ≡ some ip
      → IsGuarded g net host allow network port (dial_literal g net allow network ip port).1
  unfolding dial_literal
  literal-IsGuarded ip p = elim (Bool-cases (is_blocked_ip ip allow)) [
    | inl blocked ↦ rw blocked nothing
    | inr free ↦ rw free (dial_only ip (literal p) free)
  ]

  resolved-IsGuarded :
      (answer : Result (List Bytes))
      → g.parse_ip host ≡ none
      → net.lookup_ip_addr [] host ≡ answer
      → IsGuarded g net host allow network port
          (dial_resolved g net allow network host port answer).1
  unfolding dial_resolved
  resolved-IsGuarded (err e) p q = lookup_only
  resolved-IsGuarded panic p q = lookup_only
  resolved-IsGuarded (ok addrs) p q = elim (Option-cases (first_allowed addrs allow)) [
    | inl none_free ↦ rw (none_free, dial_resolved) lookup_only
    | inr (ip, found) ↦
        let (m, free) = first_allowed-mem addrs allow ip found in
        rw (found, dial_resolved) (lookup_dial ip (resolved addrs p q m) free)
  ]

-- Whatever the resolver answers, the dialer looks the host up at most once and dials at most once,
-- and what it dials is the text of a literal address that `isBlockedIP` lets through, which is the
-- host itself or was in that one answer.
pub guarded_dial_context-IsGuarded :
    (g : Go) (net : Network) (ctx : Context) (network addr host port : String)
    → g.split_host_port addr ≡ ok (host, port)
    → IsGuarded g net host
        (insecure_loopback_from ctx)
        network
        port
        (guarded_dial_context g net ctx network addr).1
unfolding guarded_dial_context
guarded_dial_context-IsGuarded g net ctx network addr host port e =
    elim (Option-cases (g.parse_ip host)) [
      | inl p ↦
          rw (e, dial_host, p)
            (resolved-IsGuarded g net (insecure_loopback_from ctx) network host port
              (net.lookup_ip_addr [] host) p refl)
      | inr (ip, p) ↦
          rw (e, dial_host, p)
            (literal-IsGuarded g net (insecure_loopback_from ctx) network host port ip p)
    ]

first_allowed-none :
    (addrs : List Bytes) (allow : Bool)
    → ((ip : Bytes) → Memᴰ ip addrs → is_blocked_ip ip allow ≡ true)
    → first_allowed addrs allow ≡ none
unfolding first_allowed
first_allowed-none [] allow h = refl
first_allowed-none (a ∷ addrs) allow h =
    rw (h a (Memᴰ.head refl)) (first_allowed-none addrs allow (λ ip m. h ip (Memᴰ.tail m)))

-- The dial was refused: an error that wraps `ErrAddressBlocked`, and nothing dialled.
abbrev pub IsRefused : String → Result ℕ × List NetEvent → Type 0
IsRefused host (r, asked) =
    (e : Error) × (r ≡ err e)
    × (error_is e address_blocked ≡ true)
    × ((asked ≡ []) ⊎ (asked ≡ resolve host ∷ []))

module _ (g : Go) (net : Network) (allow : Bool) (network host port : String) where
  resolved-IsRefused :
      (addrs : List Bytes)
      → ((ip : Bytes) → Memᴰ ip addrs → is_blocked_ip ip allow ≡ true)
      → IsRefused host (dial_resolved g net allow network host port (ok addrs))
  unfolding dial_resolved
  resolved-IsRefused addrs h =
      rw (first_allowed-none addrs allow h, dial_resolved) (_, refl, refl, inr refl)

  literal-IsRefused :
      (ip : Bytes)
      → is_blocked_ip ip allow ≡ true
      → IsRefused host (dial_literal g net allow network ip port)
  unfolding dial_literal
  literal-IsRefused ip h = rw h (_, refl, refl, inl refl)

-- If every candidate address is blocked, the dialer fails with an error that wraps
-- `ErrAddressBlocked`, and dials nothing.
pub guarded_dial_context-IsRefused :
    (g : Go) (net : Network) (ctx : Context) (network addr host port : String) (addrs : List Bytes)
    → g.split_host_port addr ≡ ok (host, port)
    → net.lookup_ip_addr [] host ≡ ok addrs
    → ((ip : Bytes) → IsCandidate g net host ip → is_blocked_ip ip ctx.insecure_loopback ≡ true)
    → IsRefused host (guarded_dial_context g net ctx network addr)
unfolding guarded_dial_context
guarded_dial_context-IsRefused g net ctx network addr host port addrs e q h =
    elim (Option-cases (g.parse_ip host)) [
      | inl p ↦
          rw (e, dial_host, p, q)
            (resolved-IsRefused g net (insecure_loopback_from ctx) network host port addrs
              (λ ip m. h ip (resolved addrs p q m)))
      | inr (ip, p) ↦
          rw (e, dial_host, p)
            (literal-IsRefused g net (insecure_loopback_from ctx) network host port ip
              (h ip (literal p)))
    ]
