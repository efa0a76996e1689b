-- ===== src/Connector/Login/Tests.antt =====
-- A login with the token of the form, made by a framework that counts its logins.
use matrix_groupme_bridge.Prelude.{
  ℕ, ◌+◌, ◌≡◌, refl, ap, sym, [], ◌∷◌, none, ok, err, Result, String, some,
}
use matrix_groupme_bridge.Prelude.Json.{Dict, lookup}
use matrix_groupme_bridge.Connector.Login.{
  UserLogin, Framework, GroupmeLogin, LoginStep, complete, create_login, input_at, load_user_login,
  login_row, network_client, completed, submit_user_input,
}
use matrix_groupme_bridge.Connector.Login.Loaded.{IsLoading, submit_user_input_loaded}

abbrev framework : Framework
framework = record {
  World = ℕ;
  now = λ n. n;
  new_login = λ row load w. (ok (load (record { row = row; network = none })), w + 1);
}

login_of : Result UserLogin → UserLogin → UserLogin
login_of (ok l) other = l
login_of (err e) other = other

framework-IsLoading : IsLoading framework
unfolding login_of
framework-IsLoading = record {
  loads = λ row load w w' login e. sym (ap (λ p. login_of p.0 login) e);
}

abbrev blank : GroupmeLogin
blank = record { auth_token = ""; user_id = "" }

abbrev filled : Dict String
filled = ("auth_token", "secret") ∷ []

abbrev unloaded : UserLogin
unloaded = record {
  row = record { id = ""; remote_name = ""; auth_token = "secret" };
  network = none;
}

abbrev step : LoginStep
step =
    complete "groupmeclient.complete" "Successfully logged in"
      (record unloaded { network = some (network_client framework.now unloaded "secret") })

created : create_login "auth-token" ≡ ok blank
unfolding create_login
created = refl

submitted :
    submit_user_input framework filled blank 0
    ≡ (ok step, record blank { auth_token = "secret" }, 1)
unfolding submit_user_input completed login_row input_at lookup
submitted = refl

submit_user_input_loaded_example :
    (login : UserLogin) × (step ≡ complete "groupmeclient.complete" "Successfully logged in" login)
    × (login.row ≡ record { id = ""; remote_name = ""; auth_token = input_at "auth_token" filled })
    × (load_user_login framework.now (record { row = login.row; network = none }) ≡ login)
submit_user_input_loaded_example =
    submit_user_input_loaded framework framework-IsLoading "auth-token" filled blank
      (record blank { auth_token = "secret" }) step 0 1 created submitted
