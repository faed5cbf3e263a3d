-- ===== src/Addr/Tests.antt =====
-- Runs of addr.go at inputs of the repository's own tests.
use claude_code_socket_trans.Base.{codes, ◌≡◌, refl, true, false, ok, err, bad_address}
use claude_code_socket_trans.Addr.{address, parse_address, valid_address}

encoded_space : address (codes "/tmp/a b.sock") ≡ codes "uds:/tmp/a%20b.sock"
unfolding address
encoded_space = refl

decoded_space : parse_address (codes "uds:/tmp/a%20b%2.sock%4") ≡ ok (codes "/tmp/a b%2.sock%4")
unfolding parse_address
decoded_space = refl

refused_address : parse_address (codes "tcp:x") ≡ err bad_address
unfolding parse_address
refused_address = refl

short_escape : valid_address (codes "uds:/tmp/x%2") ≡ false
unfolding valid_address
short_escape = refl

plain_address : valid_address (codes "uds:/tmp/x%2f.sock") ≡ true
unfolding valid_address
plain_address = refl
