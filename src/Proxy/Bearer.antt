-- ===== src/Proxy/Bearer.antt =====
-- internal/server/proxy/auth_handler.go and handler.go: bearer tokens, of a tunnel and of the metrics.
-- Comparing in constant time is comparing. `equal_fold` is exact on ASCII texts.
use tunl.Base.{
  Bool, true, false, not, Option, none, some, List, [], ◌∷◌, if◌then◌else◌, Text, codes, text_beq,
  equal_fold, fields,
}
use tunl.Netutil.{Request}
use tunl.Tunnel.Connection.{ProxyAuth}

unfoldable pub is_bearer_proxy_auth : Option ProxyAuth → Bool
is_bearer_proxy_auth none = false
is_bearer_proxy_auth (some auth) =
    if not (text_beq auth.kind [])
    then equal_fold auth.kind (codes "bearer")
    else not (text_beq auth.token [])

-- The second word, if the first is "Bearer".
unfoldable pub bearer_word : List Text → Text
bearer_word [] = []
bearer_word (w ∷ []) = []
bearer_word (scheme ∷ token ∷ rest) = if equal_fold scheme (codes "Bearer") then token else []

unfoldable pub extract_bearer_token : Text → Text
unfolding bearer_word
extract_bearer_token header = if text_beq header [] then [] else bearer_word (fields header)

unfoldable pub is_bearer_authenticated : Request → ProxyAuth → Bool
unfolding extract_bearer_token
is_bearer_authenticated r auth =
    let token = extract_bearer_token (r.header (codes "Authorization")) in
    if text_beq token [] then false else text_beq token auth.token

unfoldable pub validate_metrics_auth : Text → Request → Bool
unfolding extract_bearer_token
validate_metrics_auth metrics_token r =
    if text_beq metrics_token []
    then true
    else text_beq (extract_bearer_token (r.header (codes "Authorization"))) metrics_token
