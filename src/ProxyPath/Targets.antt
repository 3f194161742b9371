-- ===== src/ProxyPath/Targets.antt =====
-- Which requests proxyTargetPath does not refuse, and the path that it asks for, told of the text
-- of the request.
use Prim.Native.String.{String, ◌++◌ as ◌++ˢ◌}
use mathlib.Core.Path.{subst}
use ferrum_foundry.Prelude.{
  true, false, List, [], ◌∷◌, Option, some, ◌≡◌, ◌↔◌, refl, ap, sym, ◌∙◌, arith, All, All-imp,
  Bool-cases, Option-cases, inl, inr,
}
use ferrum_foundry.Prelude.Maps.{str_dec}
use ferrum_foundry.Policy.{includes}
use ferrum_foundry.Registry.{is_code, after_prefix}
use ferrum_foundry.Registry.Paths.{after_prefix-append}
use ferrum_foundry.ProxyPath.{
  split, before_query, contains, contains_control, is_control, is_unsafe_segment, decode_segments,
  is_plain, has_gap, path_segments, join_path, segments_of, proxy_target_path,
}
use ferrum_foundry.ProxyPath.Segments.{
  IsSafe, HasNoSlash, safe-HasNoSlash, split_segment, split-join_path,
}
use ferrum_foundry.ProxyPath.Encoded.{
  StartsQuery, HasNoMark, before_query-HasNoMark, after_query, before_query-append, join_path-split,
  split-HasNoSlash, after_prefix-slash,
}
use ferrum_foundry.ProxyPath.Pieces.{
  Every, IsNot, IsPrintable, IsPathCharacter, IsSegment, IsGapless, HasOne, DecodeTo, each_iff,
  each_and, is_unsafe_segment_iff, has_gap_iff, path_segments-parts, path_segments-api,
  decode_segments-parts, decode_segments-all,
}

plain_iff : (s : String) → ((is_plain s ≡ true) × HasNoMark s) ↔ Every IsPathCharacter s
unfolding is_plain contains_control
plain_iff s = ground (
  arith,
  each_iff is_control IsPrintable s (λ c. ground arith),
  each_iff (is_code 35) (IsNot 35) s (λ c. ground arith),
  each_iff (is_code 63) (IsNot 63) s (λ c. ground arith),
  each_and IsPrintable (λ c. IsNot 35 c × IsNot 63 c) s,
  each_and (IsNot 35) (IsNot 63) s,
)

slash_iff : (s : String) → HasNoSlash s ↔ Every (IsNot 47) s
slash_iff s = each_iff (is_code 47) (IsNot 47) s (λ c. ground arith)

api_IsSafe : IsSafe "api"
unfolding is_unsafe_segment contains_control contains includes str_dec
api_IsSafe = refl

proxy_IsSafe : IsSafe "proxy"
unfolding is_unsafe_segment contains_control contains includes str_dec
proxy_IsSafe = refl

joined_split :
    (x : String) (xs : List String)
    → HasNoSlash x
    → All HasNoSlash xs
    → split 47 (x ++ˢ join_path xs) ≡ x ∷ xs
joined_split x xs h hs = split_segment x (join_path xs) xs h (split-join_path xs hs)

module _ (decode : String → Option String) where
  -- How a path falls into encoded segments, and these into what they decode to.
  record Parts (path : String) (segments : List String) : Type 0 where
    encoded : List String
    joined : path ≡ join_path encoded
    no_slash : All HasNoSlash encoded
    decoded : DecodeTo decode encoded ("api" ∷ "proxy" ∷ segments)
    safe : All IsSafe segments
    no_gap : has_gap segments ≡ false
    one : HasOne segments

  split-Parts :
      (path rest : String) (all segments : List String)
      → after_prefix "/" path ≡ some rest
      → decode_segments decode (split 47 rest) ≡ some all
      → path_segments all ≡ some segments
      → Parts path segments
  split-Parts path rest all segments a d h =
      let (e, gap, one) = path_segments-parts all segments h in
      let (decoded, (api, (proxy, safe))) =
        decode_segments-parts decode (split 47 rest) ("api" ∷ "proxy" ∷ segments) (d ∙ ap some e) in
      record {
        encoded = split 47 rest;
        joined = after_prefix-slash path rest a ∙ sym (join_path-split rest);
        no_slash = split-HasNoSlash rest;
        decoded = decoded;
        safe = safe;
        no_gap = gap;
        one = one;
      }

  module _ (serialize : String → String) where
    segments_of-Parts :
        (path : String) (segments : List String)
        → segments_of decode serialize path ≡ some segments
        → (is_plain path ≡ true) × Parts path segments
    unfolding segments_of
    segments_of-Parts path segments h = elim (Bool-cases (is_plain path)) [
      | inr p ↦ absurd (ground (arith, p, h))
      | inl p ↦ elim (Option-cases (after_prefix "/" path)) [
        | inl a ↦ absurd (ground (arith, p, a, h))
        | inr (rest, a) ↦ elim (Option-cases (decode_segments decode (split 47 rest))) [
          | inl d ↦ absurd (ground (arith, p, a, d, h))
          | inr (all, d) ↦ (p, split-Parts path rest all segments a d (ground (arith, p, a, d, h)))
        ]
      ]
    ]

    -- `encoded` is not empty, since it decodes to two texts at least.
    segments_of-joined :
        (path : String) (segments : List String)
        → is_plain path ≡ true
        → Parts path segments
        → segments_of decode serialize path ≡ some segments
    unfolding join_path segments_of
    segments_of-joined path segments p parts =
        from parts.encoded parts.joined parts.no_slash parts.decoded
      where
        from :
            (encoded : List String)
            → path ≡ join_path encoded
            → All HasNoSlash encoded
            → DecodeTo decode encoded ("api" ∷ "proxy" ∷ segments)
            → segments_of decode serialize path ≡ some segments
        from [] e h d = elim d [ ]
        from (x ∷ xs) e (h, hs) d =
            let a : after_prefix "/" path ≡ some (x ++ˢ join_path xs) =
              ap (after_prefix "/") e ∙ after_prefix-append "/" (x ++ˢ join_path xs) in
            let s : split 47 (x ++ˢ join_path xs) ≡ x ∷ xs = joined_split x xs h hs in
            let all =
              decode_segments-all decode (x ∷ xs) ("api" ∷ "proxy" ∷ segments) d
                (api_IsSafe, (proxy_IsSafe, parts.safe)) in
            rw (segments_of, p, a, s, all) (path_segments-api segments parts.no_gap parts.one)

    -- What a request and the path that is asked for it have to do with each other. Before its
    -- query the request is of texts without a slash, each after a slash, in characters of a path;
    -- they decode, each once, to `api`, `proxy` and segments, of which only the last may be empty;
    -- each segment is safe, and the path is what URL makes of them, each after a slash, a text
    -- that falls into these segments again.
    pub record IsTarget (raw_url path : String) : Type 0 where
      pub encoded : List String
      pub segments : List String
      pub query : String
      pub asked : raw_url ≡ (join_path encoded ++ˢ query)
      pub starts_query : StartsQuery query
      pub in_path : Every IsPathCharacter (join_path encoded)
      pub no_slash : All (Every (IsNot 47)) encoded
      pub decoded : DecodeTo decode encoded ("api" ∷ "proxy" ∷ segments)
      pub safe : All IsSegment segments
      pub gapless : IsGapless segments
      pub target : path ≡ serialize (join_path segments)
      pub falls_into : split 47 (join_path segments) ≡ "" ∷ segments

    proxied :
        (raw_url path : String)
        → proxy_target_path decode serialize raw_url ≡ some path
        → (segments : List String) × (path ≡ serialize (join_path segments))
          × (segments_of decode serialize (before_query raw_url) ≡ some segments)
    unfolding proxy_target_path
    proxied raw_url path h =
        elim (Option-cases (segments_of decode serialize (before_query raw_url))) [
          | inl e ↦ absurd (ground (arith, e, h))
          | inr (segments, e) ↦ (segments, ground (arith, e, h), e)
        ]

    proxy_target_path-IsTarget :
        (raw_url path : String)
        → proxy_target_path decode serialize raw_url ≡ some path
        → IsTarget raw_url path
    proxy_target_path-IsTarget raw_url path h =
        let (segments, made, e) = proxied raw_url path h in
        let (plain, parts) = segments_of-Parts (before_query raw_url) segments e in
        let (query, asked, starts) = after_query raw_url in
        record {
          encoded = parts.encoded;
          segments = segments;
          query = query;
          asked = asked ∙ ap (λ t. t ++ˢ query) parts.joined;
          starts_query = starts;
          in_path =
              subst (Every IsPathCharacter) parts.joined
                ((plain_iff (before_query raw_url)).0 (plain, before_query-HasNoMark raw_url));
          no_slash =
              All-imp HasNoSlash (Every (IsNot 47)) parts.encoded (λ x. (slash_iff x).0)
                parts.no_slash;
          decoded = parts.decoded;
          safe = All-imp IsSafe IsSegment segments (λ x. (is_unsafe_segment_iff x).0) parts.safe;
          gapless = (has_gap_iff segments).0 (parts.one, parts.no_gap);
          target = made;
          falls_into =
              split-join_path segments
                (All-imp IsSafe HasNoSlash segments safe-HasNoSlash parts.safe);
        }

    joined-Parts :
        (raw_url path : String) (t : IsTarget raw_url path) → Parts (join_path t.encoded) t.segments
    joined-Parts raw_url path t =
        let (one, gap) = (has_gap_iff t.segments).1 t.gapless in
        record {
          encoded = t.encoded;
          joined = refl;
          no_slash =
              All-imp (Every (IsNot 47)) HasNoSlash t.encoded (λ x. (slash_iff x).1) t.no_slash;
          decoded = t.decoded;
          safe = All-imp IsSegment IsSafe t.segments (λ x. (is_unsafe_segment_iff x).1) t.safe;
          no_gap = gap;
          one = one;
        }

    of_target :
        (raw_url path : String)
        → IsTarget raw_url path
        → proxy_target_path decode serialize raw_url ≡ some path
    unfolding proxy_target_path
    of_target raw_url path t =
        let (plain, no_mark) = (plain_iff (join_path t.encoded)).1 t.in_path in
        let cut : before_query raw_url ≡ join_path t.encoded =
          ap before_query t.asked
          ∙ before_query-append (join_path t.encoded) t.query no_mark t.starts_query in
        let made =
          segments_of-joined (join_path t.encoded) t.segments plain (joined-Parts raw_url path t) in
        rw (proxy_target_path, cut, made) (ap some (sym t.target))

    -- A request is not refused, and this path asked for, exactly if before its query the request
    -- is of encoded texts that decode, each once, to `api`, `proxy` and safe segments of which the
    -- path is made: no decoded identifier becomes a further segment, a dot segment or a query.
    pub proxy_target_path_iff :
        (raw_url path : String)
        → (proxy_target_path decode serialize raw_url ≡ some path) ↔ IsTarget raw_url path
    proxy_target_path_iff raw_url path =
        (proxy_target_path-IsTarget raw_url path, of_target raw_url path)
