-- ===== src/Dots/Names/Examples.antt =====
-- Inputs that the theorems on the names of access lists apply to.
use ankah.Prelude.{◌+◌, ◌≤◌, ◌≡◌, true, some, [], ◌∷◌, length, Bytes, codes, refl, arith}
use ankah.Dots.Names.{
  name_bytes, acl_name, valid_cuid, skip_space, until_quote, accepted, scan_round, scan_loop,
  scan_names,
}
use ankah.Dots.Names.Scanning.{NoNul, Found, scan_names-Found, acl_name-valid_cuid}

abbrev a_reply : Bytes
a_reply = codes "{\"acl\":[{\"name\": \"ankah-192-0-2-1\"},{\"name\":\"other\"}]}"

test_scan_names : scan_names a_reply (codes "ankah-") 4 ≡ some (codes "ankah-192-0-2-1" ∷ [])
unfolding scan_names scan_loop scan_round skip_space until_quote accepted valid_cuid
test_scan_names = refl

test_acl_name : acl_name (codes "192.0.2.1") 80 ≡ some (codes "ankah-192-0-2-1")
unfolding acl_name name_bytes
test_acl_name = refl

no_nul : NoNul (codes "ankah-")
no_nul = (refl, (refl, (refl, (refl, (refl, (refl, tt))))))

scan_names-Found_example : Found (codes "ankah-") 4 (scan_names a_reply (codes "ankah-") 4)
scan_names-Found_example = scan_names-Found a_reply (codes "ankah-") 4 no_nul

acl_name-valid_cuid_example :
    (length (codes "ankah-192-0-2-1") + 1 ≤ 80)
    × (length (codes "ankah-192-0-2-1") ≡ length (codes "192.0.2.1") + 6)
    × (valid_cuid (codes "ankah-192-0-2-1") ≡ true)
acl_name-valid_cuid_example =
    acl_name-valid_cuid (codes "192.0.2.1") 80 (codes "ankah-192-0-2-1") (omega arith) test_acl_name
