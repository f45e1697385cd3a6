-- ===== src/Utils/Tests.antt =====
-- internal/shared/utils: runs at concrete inputs.
use tunl.Base.{
  ℕ, ◌≡◌, refl, ◌↔◌, true, false, Option, none, some, arith, ◌==◌, if◌then◌else◌, codes, text_beq,
  text_eq, nat_eq,
}
use tunl.Utils.Subdomain.{validate_subdomain, is_reserved, generate_subdomain}
use tunl.Utils.Subdomain.Shape.{
  IsSubdomain, validate_subdomain-IsSubdomain, DrawsChars, validate_subdomain-generate_subdomain,
}

validate_hyphen : validate_subdomain (codes "my-app") ≡ true
unfolding validate_subdomain
validate_hyphen = refl

validate_edge : validate_subdomain (codes "-app") ≡ false
unfolding validate_subdomain
validate_edge = refl

validate_two : validate_subdomain (codes "ab") ≡ false
unfolding validate_subdomain
validate_two = refl

reserved_api : is_reserved (codes "api") ≡ true
unfolding is_reserved text_beq
reserved_api = refl

validate_subdomain-IsSubdomain_example :
    (validate_subdomain (codes "my-app") ≡ true) ↔ IsSubdomain (codes "my-app")
validate_subdomain-IsSubdomain_example = validate_subdomain-IsSubdomain (codes "my-app")

abbrev some_draws : ℕ → Option ℕ
some_draws i = if i == 2 then none else some 7

some_draws_below : DrawsChars some_draws
some_draws_below i k e = ground arith

generated : generate_subdomain some_draws 6 ≡ codes "hhchhh"
unfolding generate_subdomain
generated = refl

validate_subdomain-generate_subdomain_example :
    validate_subdomain (generate_subdomain some_draws 6) ≡ true
validate_subdomain-generate_subdomain_example =
    validate_subdomain-generate_subdomain some_draws 6 some_draws_below (omega arith) (omega arith)
