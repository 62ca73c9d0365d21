-- ===== src/Dots/Reply/Examples.antt =====
-- Inputs that the theorems on replies apply to.
use ankah.Prelude.{◌≡◌, none, some, codes, refl, arith}
use ankah.Dots.Names.{valid_cuid}
use ankah.Dots.Reply.{client_body, status, status_loop, status-line}

test_client_body :
    client_body (codes "ankah_1") 80
    ≡ some (codes "{\"ietf-dots-data-channel:dots-client\":[{\"cuid\":\"ankah_1\"}]}")
unfolding client_body valid_cuid
test_client_body = refl

test_status_unfinished : status (codes "HTTP/1.1 2x1 Created") ≡ none
unfolding status status_loop
test_status_unfinished = refl

status-line_example : status (codes "HTTP/1.1 201 Created") ≡ some 201
status-line_example =
    status-line b'1' 2 0 1 (codes " Created") (omega arith) (omega arith) (omega arith) refl
