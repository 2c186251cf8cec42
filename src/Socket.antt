-- ===== src/Socket.antt =====
-- src/socket/allowed-origin.util.ts: which origins may open a socket.
use Prim.Native.String.{String}
use iveri_nest_sdk.Common.{
  ◌≡◌, refl, Bool, true, false, Option, none, some, List, [], ◌∷◌, if◌then◌else◌,
}
use iveri_nest_sdk.Common.Text.{Text, codes, includes}

unfoldable is_allowed_socket_origin : Option Text → List Text → Bool
is_allowed_socket_origin origin [] = true
is_allowed_socket_origin none (a ∷ allowed) = true
is_allowed_socket_origin (some []) (a ∷ allowed) = true
is_allowed_socket_origin (some (c ∷ s)) (a ∷ allowed) = includes (a ∷ allowed) (c ∷ s)

-- What the callback of the handshake is given, and whether the refusal is logged, which takes a
-- logger.
unfoldable socket_origin_allow_request :
    List Text → Bool → Option Text → Option String × Bool × Bool
unfolding is_allowed_socket_origin
socket_origin_allow_request allowed has_logger origin =
    if is_allowed_socket_origin origin allowed
    then (none, true, false)
    else (some "Origin not allowed", false, has_logger)

foreign_page :
    is_allowed_socket_origin
      (some (codes "https://evil.example"))
      (codes "https://app.example" ∷ [])
    ≡ false
unfolding is_allowed_socket_origin
foreign_page = refl

native_app : is_allowed_socket_origin none (codes "https://app.example" ∷ []) ≡ true
unfolding is_allowed_socket_origin
native_app = refl
