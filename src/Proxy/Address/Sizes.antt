-- ===== src/Proxy/Address/Sizes.antt =====
-- A parsed address has 16 bytes.
use mathlib.Core.Path.{subst}
use ankah.Prelude.{
  ℕ, zero, suc, ◌<◌, ◌≡◌, inl, inr, ◌||◌, [], ◌∷◌, none, some, some-injective, >>=-eq-some, arith,
  leb, Bool-cases, Option-cases, length, length-append, length-drop, drop, take, replicate, All,
  All-append, Bytes, str_eq, is_empty,
}
use ankah.Proxy.Address.{
  Ip, Inet, mapped_prefix, ipv4, unmapped, parse_value, trim_end, trim_start, unquoted,
  address_part, parse_ip_text,
}

abbrev pub IsByte : ℕ → Type 0
IsByte b = b < 256

-- What libuv promises of the addresses it parses.
pub record IsSound (net : Inet) : Type 0 where
  pub four :
      (text bytes : Bytes) → net.pton4 text ≡ some bytes → (length bytes ≡ 4) × All IsByte bytes
  pub sixteen :
      (text bytes : Bytes) → net.pton6 text ≡ some bytes → (length bytes ≡ 16) × All IsByte bytes

abbrev pub IsAddress : Ip → Type 0
IsAddress ip = (length ip.bytes ≡ 16) × All IsByte ip.bytes

ipv4-IsAddress : (bytes : Bytes) → length bytes ≡ 4 → All IsByte bytes → IsAddress (ipv4 bytes)
ipv4-IsAddress bytes size all = (
  omega (arith, length-append bytes (replicate 12 0)),
  All-append IsByte bytes (replicate 12 0) all (omega arith),
)

All-drop : (n : ℕ) (bytes : Bytes) → All IsByte bytes → All IsByte (drop n bytes)
All-drop zero bytes h = h
All-drop (suc n) [] h = tt
All-drop (suc n) (b ∷ bytes) h = All-drop n bytes h.1

unmapped-IsAddress :
    (bytes : Bytes) → length bytes ≡ 16 → All IsByte bytes → IsAddress (unmapped bytes)
unfolding unmapped
unmapped-IsAddress bytes size all = elim (Bool-cases (str_eq (take 12 bytes) mapped_prefix)) [
  | inl mapped ↦
      rw mapped (
        ipv4-IsAddress (drop 12 bytes) (omega (arith, length-drop 12 bytes))
          (All-drop 12 bytes all))
  | inr plain ↦ rw plain (size, all)
]

none_ne_some : {ip : Ip} → none ≡ some ip → IsAddress ip
none_ne_some e = cc

module _ (net : Inet) (sound : IsSound net) where
  parse_value-IsAddress : (value : Bytes) (ip : Ip) → parse_value net value ≡ some ip → IsAddress ip
  unfolding parse_value
  parse_value-IsAddress value ip = elim (Option-cases (net.pton4 value)) [
    | inr (bytes, e4) ↦ rw e4 (λ e.
        let (size, all) = sound.four value bytes e4 in
        subst IsAddress (some-injective (ipv4 bytes) ip e) (ipv4-IsAddress bytes size all))
    | inl no4 ↦ elim (Option-cases (net.pton6 value)) [
      | inr (bytes, e6) ↦
          rw (no4, e6)
            (λ e.
              let (size, all) = sound.sixteen value bytes e6 in
              subst IsAddress (some-injective (unmapped bytes) ip e)
                (unmapped-IsAddress bytes size all))
      | inl no6 ↦ rw (no4, no6) (λ e. cc)
    ]
  ]

  pub parse_ip_text-IsAddress :
      (text : Bytes) (ip : Ip) → parse_ip_text net text ≡ some ip → IsAddress ip
  unfolding parse_ip_text
  parse_ip_text-IsAddress text ip = elim (Bool-cases (is_empty (trim_end (trim_start text)))) [
    | inl nothing ↦ rw nothing (λ e. cc)
    | inr something ↦ rw something (λ e.
        let (inner, _, e') = >>=-eq-some (unquoted (trim_end (trim_start text))) _ e in
        let (value, _, e'') = >>=-eq-some (address_part inner) _ e' in
        elim (Bool-cases (is_empty value || leb 128 (length value))) [
          | inl unfit ↦ none_ne_some (rw unfit at e'')
          | inr fit ↦ parse_value-IsAddress value ip (rw fit at e'')
        ])
  ]
