-- ===== src/ServiceToken/Tests.antt =====
-- Two callers that share an exchange, and witnesses.
use iveri_nest_sdk.Common.{◌≡◌, refl, none, some, [], ◌∷◌}
use iveri_nest_sdk.Common.Text.{codes}
use iveri_nest_sdk.ServiceToken.Service.{
  ServiceTokenModuleOptions, Exchange, response, unreachable, object, read_exchange, is_configured,
  narrow_token, cache_token, is_fresh, get_access_token, at_once, token_url, strip_slashes,
}
use iveri_nest_sdk.ServiceToken.System.{
  System, start_system, wait, take_answer, call, settle, calls, settles, Reach, here, next,
}
use iveri_nest_sdk.ServiceToken.Served.{Any, IsServed, come_back, get_access_token-IsServed}
use iveri_nest_sdk.ServiceToken.Flight.{
  IsSingle, reachable-IsSingle, IsDone, ended, waiting-answered,
}

abbrev options : ServiceTokenModuleOptions
options = record {
  identity_api_url = codes "http://identity//";
  identity_api_key = codes "key";
  refresh_skew_seconds = 30;
}

abbrev issued : Exchange
issued = response 201 (object (some (codes "jwt")) (some 60))

url : token_url options ≡ codes "http://identity/api/v1/auth/token"
unfolding token_url strip_slashes
url = refl

abbrev one_caller : System
unfolding call wait take_answer get_access_token
one_caller = call options 1000 start_system

abbrev two_callers : System
unfolding one_caller call wait take_answer get_access_token
two_callers = call options 1001 one_caller

shared : two_callers.waiting ≡ 0 ∷ 0 ∷ []
unfolding two_callers one_caller call wait take_answer get_access_token
shared = refl

served :
    get_access_token options 31999 1 (cache_token 2000 (read_exchange options issued) none) none
    ≡ at_once (codes "jwt")
unfolding get_access_token is_fresh cache_token read_exchange is_configured narrow_token
served = refl

two_callers_reached : Reach options start_system two_callers
unfolding call two_callers
two_callers_reached = next (next here (calls 1000 refl)) (calls 1001 refl)

reachable-IsSingle_example : IsSingle two_callers
reachable-IsSingle_example = reachable-IsSingle options two_callers two_callers_reached

-- Their exchange is lost.
waiting-answered_example :
    Reach options two_callers (ended options 2000 0 (unreachable (codes "timeout")) two_callers)
    × IsDone (ended options 2000 0 (unreachable (codes "timeout")) two_callers)
unfolding two_callers
waiting-answered_example =
    waiting-answered options two_callers 2000 0 (unreachable (codes "timeout")) two_callers_reached
      refl

-- The exchange of the two comes back, and a third caller finds the token.
abbrev answered : System
unfolding two_callers settle
answered = settle options 2000 0 issued two_callers

third_run : Reach options start_system answered
unfolding call two_callers answered
third_run = next two_callers_reached (settles 2000 0 issued refl refl)

served_third :
    get_access_token options 31999 answered.next answered.cached answered.in_flight
    ≡ at_once (codes "jwt")
unfolding get_access_token is_fresh answered settle two_callers one_caller call wait take_answer
    cache_token read_exchange is_configured narrow_token
served_third = refl

get_access_token-IsServed_example :
    Any (IsServed options 31999 (codes "jwt")) (come_back options third_run)
get_access_token-IsServed_example =
    get_access_token-IsServed options third_run 31999 (codes "jwt") served_third
