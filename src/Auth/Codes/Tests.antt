-- ===== src/Auth/Codes/Tests.antt =====
-- One code of one client, exchanged and tried again.
use first_golang.Prelude.{◌≢◌, refl, String, List, [], ◌∷◌, false}
use first_golang.Sql.Exec.{Conn, ok, never}
use first_golang.Auth.Codes.{AuthCode, get_and_mark_used, verify_pkce, validate_auth_code}
use first_golang.Auth.Codes.Once.{start, exchanged_once}

abbrev code_of : String → AuthCode
code_of code = record {
  code = code;
  client_id = "editor";
  user_id = "alice";
  redirect_uri = "https://editor.example/back";
  scope = "read";
  state = "s1";
  nonce = "n1";
  code_challenge = "verifier";
  code_challenge_method = "plain";
  expires_at = 600;
  used = false;
}

abbrev connection : Conn (List AuthCode)
connection = record {
  tables = code_of "c1" ∷ [];
  tick = 0;
  fails = never;
  clock = λ n. 100;
  nonce = λ n. "";
}

abbrev digest : String → String
digest x = x

abbrev later : Conn (List AuthCode)
later =
    (validate_auth_code digest "c1" "editor" "https://editor.example/back" "verifier" connection).1

exchanged_once_example :
    (validate_auth_code digest "c1" "editor" "https://editor.example/back" "verifier" later).0
    ≢ ok ("alice", "read", "s1")
unfolding validate_auth_code get_and_mark_used verify_pkce
exchanged_once_example =
    exchanged_once digest "c1" "editor" "https://editor.example/back" "verifier"
      ("alice", "read", "s1") connection later refl start "editor" "https://editor.example/back"
      "verifier" ("alice", "read", "s1")
