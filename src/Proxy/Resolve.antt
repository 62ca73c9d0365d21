-- ===== src/Proxy/Resolve.antt =====
-- src/proxy.c, `ankah_resolve_client_ip`: whose address a request counts for.
pub mod Origin
use mathlib.Core.List.{reverse}
use ankah.Prelude.{
  ℕ, Bool, true, false, not, ◌||◌, List, [], ◌∷◌, Option, none, some, ◌==◌, if◌then◌else◌, Bytes,
}
use ankah.Http.{Header, Request}
use ankah.Http.Cookies.{header_is}
use ankah.Proxy.Address.{Ip, Inet, parse_ip_text, format_ip}
use ankah.Proxy.Network.{Network, is_trusted}
use ankah.Proxy.Forwarded.{
  Walk, parsed, refused, overrun, unfinished, forwarded_kind, x_forwarded_for_kind, xff_headers,
  forwarded_headers,
}

abbrev pub has_header : (Header → Bool) → List Header → Bool
has_header test [] = false
has_header test (h ∷ hs) = test h || has_header test hs

-- The loop from the end of the chain; the list is what is left of it, the last address first.
unfoldable pub select_loop : List Network → Ip → List Ip → Ip
select_loop trusted selected [] = selected
select_loop trusted selected (ip ∷ ips) =
    if is_trusted ip trusted then select_loop trusted ip ips else ip

unfoldable pub select_client : List Network → Ip → List Ip → Ip
select_client trusted direct chain = select_loop trusted direct (reverse chain)

-- What the function returns: the address, -1, or nothing that the language defines.
pub data Resolution : Type 0 where
  address : Bytes → Resolution
  failed undefined : Resolution

abbrev pub of_text : Option Bytes → Resolution
of_text none = failed
of_text (some text) = address text

module _ (net : Inet) (name_kind : Bytes → ℕ) where
  unfoldable pub resolve_chain : List Network → Ip → ℕ → Walk → Resolution
  resolve_chain trusted direct capacity (parsed chain) =
      of_text (format_ip net (select_client trusted direct chain) capacity)
  resolve_chain trusted direct capacity refused = failed
  resolve_chain trusted direct capacity overrun = undefined
  resolve_chain trusted direct capacity unfinished = undefined

  unfoldable pub resolve_from : Request → List Network → Ip → ℕ → Resolution
  resolve_from request trusted direct capacity =
      if not (is_trusted direct trusted)
      then of_text (format_ip net direct capacity)
      else if has_header (λ h. header_is name_kind h forwarded_kind) request.headers
      then resolve_chain trusted direct capacity
          (forwarded_headers net name_kind [] request.headers)
      else if has_header (λ h. header_is name_kind h x_forwarded_for_kind) request.headers
      then resolve_chain trusted direct capacity (xff_headers net name_kind [] request.headers)
      else of_text (format_ip net direct capacity)

  unfoldable pub resolve_client_ip : Request → Bytes → List Network → ℕ → Resolution
  resolve_client_ip request peer trusted capacity = elim (parse_ip_text net peer) [
    | none ↦ failed
    | some direct ↦ if capacity == 0 then failed else resolve_from request trusted direct capacity
  ]
