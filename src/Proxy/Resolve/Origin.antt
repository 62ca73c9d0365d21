-- ===== src/Proxy/Resolve/Origin.antt =====
-- Which address a request counts for.
use mathlib.Core.List.{reverse, reverse-reverse}
use ankah.Prelude.{
  ℕ, ◌≡◌, ◌≢◌, refl, ap, sym, ◌∙◌, ◌⊎◌, inl, inr, Bool, true, false, List, [], ◌∷◌, ◌++◌, Option,
  none, some, arith, ◌==◌, Bool-cases, Option-cases, All, Bytes,
}
use ankah.Http.{Header, Request}
use ankah.Http.Cookies.{header_is}
use ankah.Proxy.Address.{Ip, Inet, parse_ip_text, format_ip}
use ankah.Proxy.Network.{Network, is_trusted}
use ankah.Proxy.Forwarded.{
  Walk, parsed, refused, overrun, unfinished, then_walk, option_walk, non_empty, forwarded_kind,
  x_forwarded_for_kind, xff_value, parse_forwarded_value, xff_headers, forwarded_headers,
}
use ankah.Proxy.Resolve.{
  has_header, select_loop, select_client, address, failed, undefined, of_text, resolve_chain,
  resolve_from, resolve_client_ip,
}

-- Read from its end, the chain has only trusted addresses before this one, which is not trusted or
-- the last that is left.
abbrev pub FromChain : List Network → List Ip → Ip → Type 0
FromChain trusted backwards ip =
    (nearer : List Ip) × (farther : List Ip) × (backwards ≡ nearer ++ ip ∷ farther)
    × All (λ x. is_trusted x trusted ≡ true) nearer
    × ((is_trusted ip trusted ≡ false) ⊎ (farther ≡ []))

FromChain-cons :
    (trusted : List Network) (first : Ip) (backwards : List Ip) (ip : Ip)
    → is_trusted first trusted ≡ true
    → FromChain trusted backwards ip
    → FromChain trusted (first ∷ backwards) ip
FromChain-cons trusted first backwards ip t (nearer, farther, e, all, stop) =
    (first ∷ nearer, farther, ap (◌∷◌ first) e, (t, all), stop)

select_loop-FromChain :
    (trusted : List Network) (selected first : Ip) (backwards : List Ip)
    → FromChain trusted (first ∷ backwards) (select_loop trusted selected (first ∷ backwards))
unfolding select_loop
select_loop-FromChain trusted selected first [] = elim (Bool-cases (is_trusted first trusted)) [
  | inl yes_trusted ↦ rw (yes_trusted, select_loop) ([], [], refl, tt, inr refl)
  | inr not_trusted ↦ rw (not_trusted, select_loop) ([], [], refl, tt, inr refl)
]
select_loop-FromChain trusted selected first (second ∷ backwards) =
    elim (Bool-cases (is_trusted first trusted)) [
      | inl yes_trusted ↦
          rw (yes_trusted, select_loop)
            (FromChain-cons trusted first (second ∷ backwards) _ yes_trusted
              (select_loop-FromChain trusted first second backwards))
      | inr not_trusted ↦
          rw (not_trusted, select_loop) ([], second ∷ backwards, refl, tt, inl not_trusted)
    ]

select_loop-chain :
    (trusted : List Network) (selected : Ip) (backwards : List Ip)
    → backwards ≢ []
    → FromChain trusted backwards (select_loop trusted selected backwards)
select_loop-chain trusted selected [] ne = absurd (ne refl)
select_loop-chain trusted selected (first ∷ backwards) ne =
    select_loop-FromChain trusted selected first backwards

non_empty-ne : (ips chain : List Ip) → non_empty ips ≡ parsed chain → chain ≢ []
non_empty-ne [] chain e n = cc
non_empty-ne (ip ∷ ips) chain e n = ground arith

then_walk-ne :
    (w : Walk) (next : List Ip → Walk) (chain : List Ip)
    → ((ips : List Ip) → next ips ≡ parsed chain → chain ≢ [])
    → then_walk w next ≡ parsed chain
    → chain ≢ []
then_walk-ne (parsed ips) next chain h e = h ips e
then_walk-ne refused next chain h e = λ n. cc
then_walk-ne overrun next chain h e = λ n. cc
then_walk-ne unfinished next chain h e = λ n. cc

reverse-ne : (chain : List Ip) → chain ≢ [] → reverse chain ≢ []
reverse-ne chain ne e = ne (sym (reverse-reverse chain) ∙ ap reverse e)

failed-ne-address : (out : Bytes) → failed ≢ address out
failed-ne-address out e = cc

undefined-ne-address : (out : Bytes) → undefined ≢ address out
undefined-ne-address out e = cc

address_of : (text : Option Bytes) (out : Bytes) → of_text text ≡ address out → text ≡ some out
address_of none out e = cc
address_of (some text) out e = cc

module _ (net : Inet) (name_kind : Bytes → ℕ) where
  forwarded_headers-ne :
      (ips : List Ip) (hs : List Header) (chain : List Ip)
      → forwarded_headers net name_kind ips hs ≡ parsed chain
      → chain ≢ []
  unfolding forwarded_headers
  forwarded_headers-ne ips [] chain = non_empty-ne ips chain
  forwarded_headers-ne ips (h ∷ hs) chain =
      elim (Bool-cases (header_is name_kind h forwarded_kind)) [
        | inr other ↦ rw (other, forwarded_headers) (forwarded_headers-ne ips hs chain)
        | inl same ↦
            rw (same, forwarded_headers)
              (then_walk-ne (parse_forwarded_value net ips h.value)
                (λ ips'. forwarded_headers net name_kind ips' hs) chain
                (λ ips'. forwarded_headers-ne ips' hs chain))
      ]

  xff_headers-ne :
      (ips : List Ip) (hs : List Header) (chain : List Ip)
      → xff_headers net name_kind ips hs ≡ parsed chain
      → chain ≢ []
  unfolding xff_headers
  xff_headers-ne ips [] chain = non_empty-ne ips chain
  xff_headers-ne ips (h ∷ hs) chain =
      elim (Bool-cases (header_is name_kind h x_forwarded_for_kind)) [
        | inr other ↦ rw (other, xff_headers) (xff_headers-ne ips hs chain)
        | inl same ↦
            rw (same, xff_headers)
              (then_walk-ne (option_walk (xff_value net ips h.value))
                (λ ips'. xff_headers net name_kind ips' hs) chain
                (λ ips'. xff_headers-ne ips' hs chain))
      ]

  module _ (request : Request) (trusted : List Network) (direct : Ip) where
    abbrev pub has_forwarded : Bool
    has_forwarded = has_header (λ h. header_is name_kind h forwarded_kind) request.headers

    abbrev pub has_xff : Bool
    has_xff = has_header (λ h. header_is name_kind h x_forwarded_for_kind) request.headers

    -- Where the address that is chosen comes from.
    pub data Origin (ip : Ip) : Type 0 where
      untrusted_peer : is_trusted direct trusted ≡ false → ip ≡ direct → Origin ip
      no_chain :
          is_trusted direct trusted ≡ true
          → has_forwarded ≡ false
          → has_xff ≡ false
          → ip ≡ direct
          → Origin ip
      forwarded :
          (chain : List Ip)
          → is_trusted direct trusted ≡ true
          → has_forwarded ≡ true
          → forwarded_headers net name_kind [] request.headers ≡ parsed chain
          → FromChain trusted (reverse chain) ip
          → Origin ip
      x_forwarded_for :
          (chain : List Ip)
          → is_trusted direct trusted ≡ true
          → has_forwarded ≡ false
          → has_xff ≡ true
          → xff_headers net name_kind [] request.headers ≡ parsed chain
          → FromChain trusted (reverse chain) ip
          → Origin ip

    abbrev Answers : ℕ → Bytes → Type 0
    Answers capacity out = (ip : Ip) × (format_ip net ip capacity ≡ some out) × Origin ip

    of_text-format :
        (capacity : ℕ) (out : Bytes) (ip : Ip)
        → Origin ip
        → of_text (format_ip net ip capacity) ≡ address out
        → Answers capacity out
    of_text-format capacity out ip origin e =
        (ip, address_of (format_ip net ip capacity) out e, origin)

    resolve_chain-Answers :
        (capacity : ℕ) (out : Bytes) (walk : Walk)
        → ((chain : List Ip) → walk ≡ parsed chain → Origin (select_client trusted direct chain))
        → resolve_chain net name_kind trusted direct capacity walk ≡ address out
        → Answers capacity out
    unfolding resolve_chain
    resolve_chain-Answers capacity out (parsed chain) origin =
        of_text-format capacity out (select_client trusted direct chain) (origin chain refl)
    resolve_chain-Answers capacity out refused origin = λ e. absurd (failed-ne-address out e)
    resolve_chain-Answers capacity out overrun origin = λ e. absurd (undefined-ne-address out e)
    resolve_chain-Answers capacity out unfinished origin = λ e. absurd (undefined-ne-address out e)

    resolve_from-Answers :
        (capacity : ℕ) (out : Bytes)
        → resolve_from net name_kind request trusted direct capacity ≡ address out
        → Answers capacity out
    unfolding resolve_from select_client
    resolve_from-Answers capacity out = elim (Bool-cases (is_trusted direct trusted)) [
      | inr untrusted ↦
          rw untrusted (of_text-format capacity out direct (untrusted_peer untrusted refl))
      | inl trusts ↦ elim (Bool-cases has_forwarded) [
        | inl with_forwarded ↦
            rw (trusts, with_forwarded)
              (resolve_chain-Answers capacity out
                (forwarded_headers net name_kind [] request.headers)
                λ chain e. forwarded chain trusts with_forwarded e (
                  select_loop-chain trusted direct (reverse chain)
                    (reverse-ne chain (forwarded_headers-ne [] request.headers chain e))))
        | inr without ↦ elim (Bool-cases has_xff) [
          | inl with_xff ↦
              rw (trusts, without, with_xff)
                (resolve_chain-Answers capacity out (xff_headers net name_kind [] request.headers)
                  λ chain e. x_forwarded_for chain trusts without with_xff e (
                    select_loop-chain trusted direct (reverse chain)
                      (reverse-ne chain (xff_headers-ne [] request.headers chain e))))
          | inr without_xff ↦
              rw (trusts, without, without_xff)
                (of_text-format capacity out direct (no_chain trusts without without_xff refl))
        ]
      ]
    ]

  -- The address that a request counts for is that of the peer, if that is no trusted proxy or there is
  -- no forwarding header. Otherwise it stands in the chain of the Forwarded headers, or in that of the
  -- X-Forwarded-For headers if there is no other: every address after it is trusted, and it is not
  -- trusted itself or is the first of the chain.
  pub resolve_client_ip-Origin :
      (request : Request) (peer : Bytes) (trusted : List Network) (capacity : ℕ) (out : Bytes)
      → resolve_client_ip net name_kind request peer trusted capacity ≡ address out
      → (direct : Ip) × (ip : Ip) × (parse_ip_text net peer ≡ some direct)
        × (format_ip net ip capacity ≡ some out)
        × Origin request trusted direct ip
  unfolding resolve_client_ip
  resolve_client_ip-Origin request peer trusted capacity out =
      elim (Option-cases (parse_ip_text net peer)) [
        | inl refuses ↦ rw (refuses, resolve_client_ip) (λ e. absurd (failed-ne-address out e))
        | inr (direct, parses) ↦ elim (Bool-cases (capacity == 0)) [
          | inl no_room ↦
              rw (parses, resolve_client_ip) (rw no_room (λ e. absurd (failed-ne-address out e)))
          | inr room ↦
              rw (parses, resolve_client_ip)
                (rw room (λ e.
                  let (ip, formats, origin) =
                    resolve_from-Answers request trusted direct capacity out e in
                  (direct, ip, refl, formats, origin)))
        ]
      ]
