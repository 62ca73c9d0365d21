-- ===== src/Proxy/Network/Prefixes.antt =====
-- What it means for a network to contain an address.
use ankah.Prelude.{
  ℕ, ◌*◌, ◌≤◌, ◌≡◌, refl, subst, ◌↔◌, inl, inr, Bool, true, false, ◌&&◌, some, some-injective,
  >>=-eq-some, arith, ltb, Bool-cases, take, Bytes,
}
use ankah.Proxy.Address.{Family, inet, inet6, Ip, Inet, parse_ip_text}
use ankah.Proxy.Address.Sizes.{IsSound, IsAddress, parse_ip_text-IsAddress}
use ankah.Proxy.Network.{
  Network, same_family, same_prefix, network_contains, family_length, max_prefix, masked,
  decimal_prefix, network_of, network_parts, parse_network,
}
use ankah.Proxy.Network.Digits.{bits, same_prefix-bits}
use ankah.Proxy.Network.Masks.{masked-bits, masked-IsAddress}

same_family_iff : (f g : Family) → (same_family f g ≡ true) ↔ (f ≡ g)
same_family_iff f g = ground arith

and_iff :
    (x y : Bool) {A B : Type 0} → ((x ≡ true) ↔ A) → ((y ≡ true) ↔ B) → ((x && y) ≡ true) ↔ (A × B)
and_iff true true (f, g) (h, k) = ((λ _. (f refl, h refl)), (λ _. refl))
and_iff true false (f, g) (h, k) = ((λ e. cc), (λ p. k p.1))
and_iff false y (f, g) (h, k) = ((λ e. cc), (λ p. g p.0))

short_prefix : (f : Family) (p : ℕ) {n : ℕ} → p ≤ max_prefix f → n ≡ 16 → p ≤ 8 * n
short_prefix inet p le size = omega arith
short_prefix inet6 p le size = omega arith

masked_network : Ip → ℕ → Network
masked_network ip p = record {
  address = masked (family_length ip.family) p ip.bytes;
  prefix = p;
  family = ip.family;
}

masked_network-bits :
    (ip other : Ip) (p : ℕ)
    → IsAddress ip
    → IsAddress other
    → p ≤ max_prefix ip.family
    → (network_contains (masked_network ip p) other ≡ true)
      ↔ ((ip.family ≡ other.family) × (take p (bits ip.bytes) ≡ take p (bits other.bytes)))
unfolding network_contains masked_network
masked_network-bits ip other p (size, bytes) (size', bytes') le =
    let (masked_size, masked_bytes) = masked-IsAddress (family_length ip.family) p ip.bytes bytes in
    let cleared = masked (family_length ip.family) p ip.bytes in
    let test =
      same_prefix-bits cleared other.bytes p (omega arith) masked_bytes bytes'
        (short_prefix ip.family p le (omega arith)) in
    and_iff (same_family ip.family other.family) (same_prefix p cleared other.bytes)
      (same_family_iff ip.family other.family)
      (rw (← masked-bits ip.bytes (family_length ip.family) p bytes) test)

network_of-bits :
    (ip other : Ip) (p : ℕ) (network : Network)
    → IsAddress ip
    → IsAddress other
    → network_of ip p ≡ some network
    → (network_contains network other ≡ true)
      ↔ ((ip.family ≡ other.family) × (take p (bits ip.bytes) ≡ take p (bits other.bytes)))
unfolding masked_network
network_of-bits ip other p network h k = elim (Bool-cases (ltb (max_prefix ip.family) p)) [
  | inl too_long ↦ rw too_long (λ e. ground (arith, e))
  | inr fits ↦ rw fits (λ e.
      subst
        (λ n.
          (network_contains n other ≡ true)
          ↔ ((ip.family ≡ other.family) × (take p (bits ip.bytes) ≡ take p (bits other.bytes))))
        (some-injective (masked_network ip p) network e)
        (masked_network-bits ip other p h k (ground arith)))
]

-- A network that is parsed contains just the addresses of its family that agree with its address on
-- the binary digits of its prefix.
pub parse_network-bits :
    (net : Inet) (text : Bytes) (network : Network) (other : Ip)
    → IsSound net
    → parse_network net text ≡ some network
    → IsAddress other
    → (ip : Ip) × (parts : Bytes × Bytes) × (network_parts text ≡ some parts)
      × (parse_ip_text net parts.0 ≡ some ip)
      × ((network_contains network other ≡ true) ↔ (
          (ip.family ≡ other.family)
          × (take (decimal_prefix 0 parts.1) (bits ip.bytes)
              ≡ take (decimal_prefix 0 parts.1) (bits other.bytes))))
unfolding parse_network
parse_network-bits net text network other sound e address =
    let (parts, e1, e') = >>=-eq-some (network_parts text) _ e in
    let (ip, e2, e'') = >>=-eq-some (parse_ip_text net parts.0) _ e' in
    (
      ip,
      parts,
      e1,
      e2,
      network_of-bits ip other (decimal_prefix 0 parts.1) network
          (parse_ip_text-IsAddress net sound parts.0 ip e2) address e'',
    )
