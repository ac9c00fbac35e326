-- ===== src/Handshake/Tests.antt =====
-- The theorems on the handshake packet at concrete sizes.
use mysqlproxy.Base.{◌≡◌, inr, arith}
use mysqlproxy.Base.Runs.{fault}
use mysqlproxy.Handshake.{big, create_acl, packet_size}
use mysqlproxy.Handshake.Layout.{create_acl-fault}

create_acl-fault_example : create_acl big packet_size 77 ≡ fault
create_acl-fault_example = create_acl-fault big packet_size 77 (inr (omega arith))
