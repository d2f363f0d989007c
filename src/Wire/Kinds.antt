-- ===== src/Wire/Kinds.antt =====
-- The kinds of src/target/wire.rs.
use nazo_auth_ctl.Prelude.{◌≡◌, refl, true, contains}
use nazo_auth_ctl.Wire.{HostOperationBody, ping, kind, host_operation_kinds}

-- Every kind token is in the closed list that journals accept.
pub kind-registered : (body : HostOperationBody) → contains host_operation_kinds (kind body) ≡ true
unfolding kind
kind-registered (ping _) = refl
kind-registered _ = refl
