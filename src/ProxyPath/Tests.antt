-- ===== src/ProxyPath/Tests.antt =====
-- A path of the gateway, and a page of the browser.
use Prim.Native.String.{String}
use ferrum_foundry.Prelude.{true, false, Option, none, some, ◌≡◌, ◌↔◌, refl}
use ferrum_foundry.Prelude.Maps.{str_dec}
use ferrum_foundry.Policy.{includes}
use ferrum_foundry.Registry.{after_prefix}
use ferrum_foundry.ProxyPath.{
  before_query, decodes_to_api, begins, request_is_api_route, serves_spa_shell, proxy_target_path,
  split, contains, contains_control, is_unsafe_segment, decode_segment, decode_segments, is_plain,
  has_gap, path_segments, join_path, segments_of,
}
use ferrum_foundry.ProxyPath.Routes.{
  classified_method, allows, matches_path, texts_of, matches_pieces, matches_piece,
  namespace_scoped_routes, namespace_safe_global_routes, proxy_path_is_allowed_for_namespace,
  IsKnown,
}
use ferrum_foundry.ProxyPath.Denied.{proxy_path_is_allowed-IsKnown}
use ferrum_foundry.ProxyPath.Targets.{IsTarget, proxy_target_path_iff}
use ferrum_foundry.ProxyPath.Decoding.{decoded, serves_spa_shell-decoded}

abbrev plain : String → Option String
plain s = some s

abbrev same : String → String
same s = s

forwarded : proxy_target_path plain same "/api/proxy/proxies/shop?x=1" ≡ some "/proxies/shop"
unfolding proxy_target_path before_query segments_of is_plain contains_control contains after_prefix
    split decode_segments decode_segment is_unsafe_segment includes str_dec path_segments has_gap
    join_path
forwarded = refl

refused : proxy_target_path plain same "/api/proxy/proxies/../status" ≡ none
unfolding proxy_target_path before_query segments_of is_plain contains_control contains after_prefix
    split decode_segments decode_segment is_unsafe_segment includes str_dec path_segments has_gap
    join_path
refused = refl

proxy_target_path_iff_example :
    (proxy_target_path plain same "/api/proxy/proxies/shop?x=1" ≡ some "/proxies/shop")
    ↔ IsTarget plain same "/api/proxy/proxies/shop?x=1" "/proxies/shop"
proxy_target_path_iff_example =
    proxy_target_path_iff plain same "/api/proxy/proxies/shop?x=1" "/proxies/shop"

page_served : serves_spa_shell plain "GET" none "/proxies?page=2" ≡ true
unfolding serves_spa_shell request_is_api_route decodes_to_api before_query after_prefix includes
    str_dec
page_served = refl

page_decoded : decoded plain 3 (before_query "/proxies?page=2") ≡ some "/proxies"
unfolding before_query
page_decoded = refl

serves_spa_shell-decoded_example : begins "/api/" "/proxies" ≡ false
serves_spa_shell-decoded_example =
    serves_spa_shell-decoded plain "GET" none "/proxies?page=2" page_served 3 "/proxies"
      page_decoded

scoped_allowed :
    proxy_path_is_allowed_for_namespace plain same "HEAD" "/api/proxy/proxies/shop" ≡ true
unfolding proxy_path_is_allowed_for_namespace proxy_target_path before_query segments_of is_plain
    contains_control contains after_prefix split decode_segments decode_segment is_unsafe_segment
    includes str_dec path_segments has_gap join_path classified_method allows matches_path texts_of
    matches_pieces matches_piece namespace_scoped_routes namespace_safe_global_routes
scoped_allowed = refl

mesh_denied : proxy_path_is_allowed_for_namespace plain same "GET" "/api/proxy/mesh/peers" ≡ false
unfolding proxy_path_is_allowed_for_namespace proxy_target_path before_query segments_of is_plain
    contains_control contains after_prefix split decode_segments decode_segment is_unsafe_segment
    includes str_dec path_segments has_gap join_path classified_method allows matches_path texts_of
    matches_pieces matches_piece namespace_scoped_routes namespace_safe_global_routes
mesh_denied = refl

proxy_path_is_allowed-IsKnown_example :
    (path : String) × (proxy_target_path plain same "/api/proxy/proxies/shop" ≡ some path)
    × IsKnown path
proxy_path_is_allowed-IsKnown_example =
    proxy_path_is_allowed-IsKnown plain same "HEAD" "/api/proxy/proxies/shop" scoped_allowed
