-- ===== src/Connector/Login/Loaded.antt =====
-- The login that the form makes.
use matrix_groupme_bridge.Prelude.{
  ◌≡◌, refl, sym, ap, String, none, some, Result, ok, err, ◌==◌, Bool-cases, inl, inr,
}
use matrix_groupme_bridge.Prelude.Json.{Dict}
use matrix_groupme_bridge.Connector.Login.{
  LoginRow, UserLogin, Framework, GroupmeLogin, LoginStep, complete, create_login, input_at,
  network_client, load_user_login, login_row, completed, submit_user_input,
}

-- The framework loads the login that it makes, by the function that it was given.
pub record IsLoading (fw : Framework) : Type 0 where
  pub loads :
      (row : LoginRow) (load : UserLogin → UserLogin) (w w' : fw.World) (login : UserLogin)
      → fw.new_login row load w ≡ (ok login, w')
      → login ≡ load (record { row = row; network = none })

module _ (fw : Framework) where
  completed_only :
      (made : Result UserLogin) (step : LoginStep)
      → completed fw made ≡ ok step
      → (login : UserLogin) × (made ≡ ok login)
        × (step ≡ complete "groupmeclient.complete" "Successfully logged in" login)
  unfolding completed
  completed_only (err e) step h = cc h
  completed_only (ok login) step h = (login, refl, cc h)

  create_login_blank :
      (flow_id : String) (gl : GroupmeLogin) → create_login flow_id ≡ ok gl → gl.user_id ≡ ""
  unfolding create_login
  create_login_blank flow_id gl h = elim (Bool-cases (flow_id == "auth-token")) [
    | inl known ↦ sym (ap (λ r. user_id_in r) (rw (known, create_login) at h))
    | inr unknown ↦ cc (rw (unknown, create_login) at h)
  ]
    where
      user_id_in : Result GroupmeLogin → String
      user_id_in (ok g) = g.user_id
      user_id_in (err e) = ""

  -- With a framework that loads the login that it makes: where `SubmitUserInput` of a login process of
  -- `CreateLogin` succeeds, the step is the completion of a login whose token is the input's, whose identifier
  -- and remote name are empty whoever logs in, and which `LoadUserLogin` makes again of its stored row.
  pub submit_user_input_loaded :
      IsLoading fw
      → (flow_id : String) (input : Dict String) (gl gl' : GroupmeLogin) (step : LoginStep)
        (w w' : fw.World)
      → create_login flow_id ≡ ok gl
      → submit_user_input fw input gl w ≡ (ok step, gl', w')
      → (login : UserLogin) × (step
          ≡ complete "groupmeclient.complete" "Successfully logged in" login)
        × (login.row
            ≡ record { id = ""; remote_name = ""; auth_token = input_at "auth_token" input })
        × (load_user_login fw.now (record { row = login.row; network = none }) ≡ login)
  unfolding submit_user_input login_row load_user_login network_client
  submit_user_input_loaded loading flow_id input gl gl' step w w' created h =
      let blank = create_login_blank flow_id gl created in
      let made =
        fw.new_login (login_row (record gl { auth_token = input_at "auth_token" input }))
          (λ login. record login {
            network = some (network_client fw.now login (input_at "auth_token" input));
          })
          w in
      let (login, returned, shape) = completed_only made.0 step (ap (λ t. t.0) h) in
      let loaded = loading.loads _ _ w made.1 login (λ i. (returned i, made.1)) in
      (login, shape, rw (loaded, blank) refl, rw loaded refl)
