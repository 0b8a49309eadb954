-- ===== src/Plant/Websocket/Headers.antt =====
-- The headers and the address of an upgrade: the functions of crates/plant/src/proxy/websocket.rs.
use vaultr.Prelude.{
  ◌==◌, Bool, not, ◌&&◌, ◌||◌, Option, none, some, List, [], ◌∷◌, ◌++◌, filter, map, is_empty,
  if◌then◌else◌,
}
use vaultr.Text.{Text, chars, text_eq, to_ascii_lowercase, strip_prefix, trim, trim_end, split}
use vaultr.Recon.Delta.{is_one_of, is_some}
use vaultr.Recon.Output.{filter_map}
use vaultr.Plant.Adapter.{Headers}

abbrev after_scheme : Text → Option Text → Option Text → Option Text → Option Text
after_scheme base (some rest) _ _ = some (chars "wss://" ++ rest)
after_scheme base none (some rest) _ = some (chars "ws://" ++ rest)
after_scheme base none none (some _) = some base
after_scheme base none none none = none

abbrev is_websocket : Text → Option Text
is_websocket base =
    if is_some (strip_prefix (chars "ws://") base) || is_some (strip_prefix (chars "wss://") base)
    then some base
    else none

-- The address of the upstream, none for an unsupported scheme.
unfoldable pub upstream_url : Text → Text → Text → Option Text
upstream_url base path query = with_path (scheme (trim_end (λ c. c == b'/') base))
  where
    scheme : Text → Option Text
    scheme b =
        after_scheme b (strip_prefix (chars "https://") b) (strip_prefix (chars "http://") b)
          (is_websocket b)

    with_path : Option Text → Option Text
    with_path none = none
    with_path (some b) = some (b ++ path ++ query)

abbrev lower : Text → Text
lower s = map to_ascii_lowercase s

abbrev flat_map {ℓ κ} : {A : Type ℓ} {B : Type κ} → (A → List B) → List A → List B
flat_map f [] = []
flat_map f (x ∷ xs) = f x ++ flat_map f xs

-- The value of a header of this name, if it has one.
abbrev connection_value : Text × Option Text → Option Text
connection_value (name, v) = if text_eq name (chars "connection") then v else none

unfoldable pub connection_tokens : Headers → List Text
connection_tokens headers =
    filter (λ token. not (is_empty token))
      (map (λ token. lower (trim token))
        (flat_map (λ value. split b',' value) (filter_map connection_value headers)))

unfoldable pub is_hop_by_hop : Text → List Text → Bool
is_hop_by_hop name tokens =
    is_one_of tokens name
    || is_one_of
        (chars "connection"
          ∷ chars "keep-alive"
          ∷ chars "proxy-authenticate"
          ∷ chars "proxy-authorization"
          ∷ chars "proxy-connection"
          ∷ chars "te"
          ∷ chars "trailer"
          ∷ chars "transfer-encoding"
          ∷ chars "upgrade"
          ∷ [])
        name

unfoldable pub request_header_is_forwardable : Text → List Text → Bool
request_header_is_forwardable name tokens =
    not (is_hop_by_hop name tokens)
    && not (
        is_one_of
          (chars "content-length"
            ∷ chars "host"
            ∷ chars "sec-websocket-key"
            ∷ chars "sec-websocket-version"
            ∷ chars "sec-websocket-accept"
            ∷ chars "sec-websocket-extensions"
            ∷ [])
          name)

unfoldable pub response_header_is_forwardable : Text → List Text → Bool
response_header_is_forwardable name tokens =
    not (is_hop_by_hop name tokens)
    && not (
        is_one_of
          (chars "content-length"
            ∷ chars "sec-websocket-accept"
            ∷ chars "sec-websocket-extensions"
            ∷ [])
          name)

-- The headers that a client's request, or a response of the upstream, adds on the other side.
unfoldable pub request_headers : Headers → Headers
request_headers headers =
    filter (λ h. request_header_is_forwardable h.0 (connection_tokens headers)) headers

unfoldable pub response_headers : Headers → Headers
response_headers headers =
    filter (λ h. response_header_is_forwardable h.0 (connection_tokens headers)) headers
