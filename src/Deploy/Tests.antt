-- ===== src/Deploy/Tests.antt =====
-- Tests of server/api/deploy_routes.py.
use batch_shutdown_assistant.Prelude.{
  ◌≡◌, refl, String, concat, false, List, [], ◌∷◌, some, none, ok,
}
use batch_shutdown_assistant.Models.{new_device, empty_db}
use batch_shutdown_assistant.Deploy.{
  before_colon, is_local, detect_lan_ip, TokenRequest, generate_device_token, resolve_server_url,
}
use batch_shutdown_assistant.Deploy.Outside.{is_dotted, resolve_server_url_lem}

replaces_localhost :
    resolve_server_url (some "192.168.1.5") (some "localhost:9000") ≡ ok "http://192.168.1.5:9000"
unfolding resolve_server_url
replaces_localhost = refl

keeps_host : resolve_server_url none (some "192.168.1.7") ≡ ok "http://192.168.1.7"
unfolding resolve_server_url
keeps_host = refl

abbrev request : TokenRequest
request = record { hostname = "PC-1"; ip = ""; group_name = "" }

prepares_device :
    (generate_device_token "d1" "t1" "a1" 1 "admin" request empty_db).0
    ≡ record (new_device "d1" "t1" 1) { hostname = some "PC-1" }
unfolding generate_device_token new_device
prepares_device = refl

abbrev addresses : List String
addresses = "127.0.1.1" ∷ "10.0.0.5" ∷ []

replaces_default :
    resolve_server_url (detect_lan_ip none (some addresses)) none ≡ ok "http://10.0.0.5:8080"
unfolding resolve_server_url detect_lan_ip
replaces_default = refl

resolve_server_url_lem_example :
    (host : String) × ("http://10.0.0.5:8080" ≡ concat "http://" host)
    × (is_local (before_colon host) ≡ false)
unfolding is_dotted
resolve_server_url_lem_example =
    resolve_server_url_lem none (some addresses) none refl refl replaces_default
