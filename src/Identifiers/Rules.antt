-- ===== src/Identifiers/Rules.antt =====
-- How the rules of src/registry.rs and src/target/journal.rs relate.
use nazo_auth_ctl.Prelude.{String, ◌≡◌, refl, true, arith}
use nazo_auth_ctl.Identifiers.{validate_identifier, deployment_scope}

pub validate_identifier-deployment_scope :
    (value : String) → validate_identifier value 128 ≡ true → deployment_scope value ≡ true
unfolding validate_identifier deployment_scope
validate_identifier-deployment_scope value h = ground arith

scope_test : deployment_scope "prod-eu.1" ≡ true
unfolding deployment_scope
scope_test = refl
