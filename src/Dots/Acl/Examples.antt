-- ===== src/Dots/Acl/Examples.antt =====
-- The access list for one address.
use ankah.Prelude.{◌<◌, ◌≡◌, refl, false, length, Bytes, codes}
use ankah.Proxy.Address.{before}
use ankah.Pow.Text.{decimal_digits}
use ankah.Dots.Names.{valid_cuid}
use ankah.Dots.Acl.{address_text, joined, acl_pieces, acl_body, count, acl_body-count}

abbrev body : Bytes
body = joined (
    acl_pieces false (codes "ankah-203-0-113-7") (codes "203.0.113.7") (codes "198.51.100.1/32")
      443)

acl_body-count_example : (count b'"' body ≡ 54) × ((count b'\\' body ≡ 0) × (length body < 1024))
unfolding acl_body joined address_text before valid_cuid decimal_digits
acl_body-count_example =
    acl_body-count (codes "ankah-203-0-113-7") (codes "203.0.113.7") (codes "198.51.100.1/32") 443
      1024 body refl
