-- ===== src/Netutil/Tests.antt =====
-- Package net's parsers on a few texts, and the theorems at concrete input.
use tunl.Base.{
  ◌+◌, ◌*◌, ◌^◌, ◌≡◌, ◌↔◌, refl, true, none, [], ◌∷◌, codes, text_eq, text_beq, if◌then◌else◌,
  before, trim_space,
}
use tunl.Base.Map.{lookup}
use tunl.Netutil.{v4, v6, net4, Parsers, Request, in_network}
use tunl.Netutil.ClientIp.{extract_client_ip, ClientIs, extract_client_ip-ClientIs}
use tunl.Netutil.Access.{
  MayConnect, any_network, is_allowed, new_ip_access_checker, is_allowed-MayConnect,
}

abbrev pub known : Parsers
known = record {
  parse_ip = λ t. lookup t (
      (codes "10.0.0.7", v4 (10 * 2 ^ 24 + 7))
      ∷ (codes "203.0.113.9", v4 (203 * 2 ^ 24 + 113 * 2 ^ 8 + 9))
      ∷ (codes "::1", v6 1)
      ∷ []);
  parse_cidr = λ t. lookup t (
      (codes "10.0.0.0/8", net4 (10 * 2 ^ 24) 8)
      ∷ (codes "203.0.113.9/32", net4 (203 * 2 ^ 24 + 113 * 2 ^ 8 + 9) 32)
      ∷ []);
  split_host = λ t. lookup t (
      (codes "10.0.0.7:5001", codes "10.0.0.7")
      ∷ (codes "203.0.113.9:5001", codes "203.0.113.9")
      ∷ []);
}

is_allowed-MayConnect_example :
    (is_allowed known
        (new_ip_access_checker known (codes " 10.0.0.0/8 " ∷ []) (codes "203.0.113.9" ∷ []))
        (codes "10.0.0.7")
      ≡ true)
    ↔ MayConnect known (codes " 10.0.0.0/8 " ∷ []) (codes "203.0.113.9" ∷ []) (codes "10.0.0.7")
is_allowed-MayConnect_example =
    is_allowed-MayConnect known (codes " 10.0.0.0/8 " ∷ []) (codes "203.0.113.9" ∷ [])
      (codes "10.0.0.7")

abbrev pub request : Request
request = record {
  method = codes "GET";
  host = codes "my-app.example.org";
  path = codes "/";
  raw_query = [];
  remote_addr = codes "10.0.0.7:5001";
  header = λ t. if text_beq t (codes "X-Forwarded-For") then codes "203.0.113.9, 10.0.0.7" else [];
  cookie = λ t. none;
  form_parses = true;
  form_value = λ t. [];
}

-- The request came through a proxy.
client : extract_client_ip known request ≡ codes "203.0.113.9"
unfolding extract_client_ip lookup text_beq before trim_space any_network in_network
client = refl

extract_client_ip-ClientIs_example :
    (extract_client_ip known request ≡ codes "203.0.113.9")
    ↔ ClientIs known request (codes "203.0.113.9")
extract_client_ip-ClientIs_example = extract_client_ip-ClientIs known request (codes "203.0.113.9")
