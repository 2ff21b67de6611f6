-- ===== src/Tests/Login.antt =====
-- Instances of the theorems on the login function.
use cli_demo.Prelude.{
  String, ◌≡◌, refl, true, List, [], ◌∷◌, ◌++◌, some, ◌==◌, string_eq, if◌then◌else◌,
}
use cli_demo.GoError.{plain, sentinel, mismatched_hash_and_password}
use cli_demo.Effect.{ok, err}
use cli_demo.Effect.Ends.{Ends}
use cli_demo.Presenter.Login.{Request, Login, handle}
use cli_demo.Presenter.Login.Passwords.{IsRecorded, IsAnswered, handle-IsAnswered}

-- The world is the list of the tokens with a session; the hash of a password is the password.
abbrev login : Login (List String)
login = record {
  get_secret_value = λ w. (ok (some "secret"), w);
  create = λ token w. (ok tt, w ++ token ∷ []);
  is_valid = λ token w. (ok true, w);
  compare_hash = λ hash password.
      if hash == password then ok tt else err (sentinel mismatched_hash_and_password);
  request_cookie = λ header name. err (plain "named cookie not present");
  json_unmarshal = λ body. ok body;
  json_marshal = λ m. ok "{}";
  read_full = λ n w. (ok (1 ∷ 2 ∷ []), w);
  encode_to_string = λ b. "0102";
}

login-IsRecorded : IsRecorded login (λ w. w)
login-IsRecorded = record {
  creates = λ token ts. record { at = λ w p. rw p refl };
  secret_keeps = λ ts. record { at = λ w p. p };
  valid_keeps = λ ts token. record { at = λ w p. p };
  random_keeps = λ ts n. record { at = λ w p. p };
}

abbrev attempt_to_log_in : Request
attempt_to_log_in = record { method = "POST"; cookies = []; body = "secret" }

handle-IsAnswered_example :
    Ends
      (λ w. w ≡ [])
      (handle login attempt_to_log_in)
      (IsAnswered login (λ w. w) login-IsRecorded attempt_to_log_in [])
      (λ e w. ⊥)
handle-IsAnswered_example = handle-IsAnswered login (λ w. w) login-IsRecorded attempt_to_log_in []
