-- ===== src/Samples/Asking.antt =====
-- Runs of the parts that ask the network: the dialer and the live fetch.
use dalgo2http.Prelude.{
  ◌≡◌, ◌≤◌, ◌<◌, refl, subst, true, false, not, ◌&&◌, ◌||◌, [], ◌∷◌, none, arith, length, any, All,
  Dict, String, lookup, has_key,
}
use dalgo2http.Context.{insecure_loopback_from}
use dalgo2http.Errors.{Error, missing_param, error_is, ok, err}
use dalgo2http.Runtime.{Bytes}
use dalgo2http.Descriptor.{live_only_decoder, pieces, placeholders}
use dalgo2http.Security.{is_blocked_ip, guarded_dial_context}
use dalgo2http.Security.Blocked.{
  v4_number, in_cidr, loopback_range, forbidden_ranges, is_blocked_ip-v4,
}
use dalgo2http.Security.Dialer.{
  IsCandidate, literal, resolved, IsGuarded, guarded_dial_context-IsGuarded, IsRefused,
  guarded_dial_context-IsRefused,
}
use dalgo2http.Request.Build.{build_url}
use dalgo2http.Request.{Live, receive, response_byte_limit}
use dalgo2http.Request.Classes.{receive-ok}
use dalgo2http.Request.Urls.{IsUrlOf, build_url-IsUrlOf}
use dalgo2http.Request.Missing.{IsDeclared, lacks, build_url-missing}
use dalgo2http.Samples.{
  sample_go, sample_collection, sample_response, sample_context, sample_network,
}

is_blocked_ip-v4_example : is_blocked_ip (10 ∷ 1 ∷ 2 ∷ 3 ∷ []) true ≡ (
    in_cidr (v4_number 10 1 2 3) loopback_range && not true
    || any (in_cidr (v4_number 10 1 2 3)) forbidden_ranges)
is_blocked_ip-v4_example =
    is_blocked_ip-v4 10 1 2 3 true (omega arith) (omega arith) (omega arith) (omega arith)

guarded_dial_context-IsGuarded_example :
    IsGuarded sample_go sample_network "api.example"
      (insecure_loopback_from sample_context)
      "tcp"
      "443"
      (guarded_dial_context sample_go sample_network sample_context "tcp" "api.example:443").1
guarded_dial_context-IsGuarded_example =
    guarded_dial_context-IsGuarded sample_go sample_network sample_context "tcp" "api.example:443"
      "api.example" "443" refl

loopback_is_blocked : is_blocked_ip (127 ∷ 0 ∷ 0 ∷ 1 ∷ []) false ≡ true
unfolding is_blocked_ip
loopback_is_blocked = refl

pub local_is_blocked :
    (ip : Bytes)
    → IsCandidate sample_go sample_network "127.0.0.1" ip
    → is_blocked_ip ip false ≡ true
local_is_blocked ip (literal e) =
    let same : ◌≡◌ {A = Bytes} (127 ∷ 0 ∷ 0 ∷ 1 ∷ []) ip = cc in
    subst (λ a. is_blocked_ip a false ≡ true) same loopback_is_blocked
local_is_blocked ip (resolved addrs p q m) = cc

guarded_dial_context-IsRefused_example :
    IsRefused "127.0.0.1"
      (guarded_dial_context sample_go sample_network sample_context "tcp" "127.0.0.1:80")
guarded_dial_context-IsRefused_example =
    guarded_dial_context-IsRefused sample_go sample_network sample_context "tcp" "127.0.0.1:80"
      "127.0.0.1" "80" [] refl refl local_is_blocked

abbrev sample_live : Live
sample_live = record { body = 123 ∷ 125 ∷ []; status_code = 200; observation = none }

receives :
    receive sample_go sample_collection "https://api.example/rates/EUR" none sample_response
    ≡ ok sample_live
unfolding receive response_byte_limit live_only_decoder
receives = refl

receive-ok_example :
    (sample_live.body ≡ sample_response.body)
    × (length sample_response.body ≤ response_byte_limit sample_collection.decoder)
    × (sample_response.body_error ≡ none)
    × (sample_response.status_code < 400)
    × (sample_live.status_code ≡ sample_response.status_code)
receive-ok_example =
    receive-ok sample_go sample_collection "https://api.example/rates/EUR" none sample_response
      sample_live receives

abbrev asked : Dict String
asked = ("base", "EUR") ∷ []

builds : build_url sample_go sample_collection asked ≡ ok "https://api.example/rates/EUR"
unfolding build_url pieces lookup
builds = refl

build_url-IsUrlOf_example :
    IsUrlOf sample_go sample_collection asked "https://api.example/rates/EUR"
build_url-IsUrlOf_example =
    build_url-IsUrlOf sample_go sample_collection asked "https://api.example/rates/EUR" builds

has_base :
    All
      (IsDeclared sample_go sample_collection [])
      (placeholders (pieces sample_collection.url_template))
unfolding pieces placeholders has_key lookup
has_base = (refl, tt)

lacks_base :
    any
      (lacks sample_go sample_collection [])
      (placeholders (pieces sample_collection.url_template))
    ≡ true
unfolding pieces placeholders has_key lookup
lacks_base = refl

build_url-missing_example :
    (e : Error) × (build_url sample_go sample_collection [] ≡ err e)
    × (error_is e missing_param ≡ true)
build_url-missing_example = build_url-missing sample_go sample_collection [] has_base lacks_base
