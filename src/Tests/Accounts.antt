-- ===== src/Tests/Accounts.antt =====
-- The theorems on accounts, each at one input.
use backend_architecture.Prelude.{
  ℕ, ◌+◌, ◌≡◌, ◌≢◌, refl, Bool, true, false, Option, none, some, [], ◌∷◌, ◌++◌, Text, codes,
  text_eq, text_eq_refl, Result, ok, pure, arith,
}
use backend_architecture.Prelude.Decimal.{decimal}
use backend_architecture.Services.Memory.{Store, memory}
use backend_architecture.Services.Postgres.{IsPool, Pool}
use backend_architecture.Auth.{
  User, Account, AuthTables, TokenPair, create_tokens, insert_token, refresh, refreshed,
}
use backend_architecture.Auth.Bearer.{Claims, authenticate, authenticated, missing_bearer_token}
use backend_architecture.Auth.Accounts.{
  AccountContext, Credentials, logged_in, invalid_credentials, find_email, user_of, login, register,
  logout, fail, select_account, update_failures, insert_account, count_ip_failure, note_failure,
  revoke_hash, user_of,
}
use backend_architecture.Auth.Accounts.Quiet.{LeavesTables}
use backend_architecture.Auth.Accounts.Login.{IsVerified, login-IsVerified}
use backend_architecture.Auth.Accounts.Lockout.{with_failure}
use backend_architecture.Auth.Accounts.Race.{fail-fail}
use backend_architecture.Auth.Accounts.SignUp.{Welcome, register-login}
use backend_architecture.Auth.Accounts.Logout.{logout-refresh}
use backend_architecture.Tests.Databases.{pool_of, pool_of-IsPool}
use backend_architecture.Tests.Fixtures.{config, empty}

record Site : Type 0 where
  tables : AuthTables
  store : Store
  made : ℕ

abbrev lift : {A : Type 0} → (Store → A × Store) → Site → A × Site
lift f w = let (a, s) = f w.store in (a, record w { store = s })

abbrev numbered : Text → Site → Text × Site
numbered name w = (name ++ decimal w.made, record w { made = w.made + 1 })

abbrev site_pool : Pool Site AuthTables
site_pool = pool_of (λ w. w.tables) (λ t w. record w { tables = t })

site_pool-IsPool : IsPool site_pool (λ w. w.tables)
site_pool-IsPool = pool_of-IsPool (λ w. w.tables) (λ t w. record w { tables = t }) (λ t w. refl)

abbrev site : AccountContext Site
site = record {
  auth = record {
    config = config;
    pool = site_pool;
    sign = λ user w. user.email;
    hash_token = λ s. s;
    new_refresh_token = numbered (codes "token");
    random_uuid = numbered (codes "id");
    now_ms = λ w. 1000;
  };
  redis = record {
    get = λ k. lift (memory.get k);
    set_ex = λ k v n. lift (memory.set_ex k v n);
    set_ex_nx = λ k v n. lift (memory.set_ex_nx k v n);
    del = λ k. lift (memory.del k);
    incr = λ k. lift (memory.incr k);
    expire = λ k n. lift (memory.expire k n);
    ttl = λ k. lift (memory.ttl k);
  };
  hash = λ password. pure password;
  verify = λ hash password. pure (text_eq hash password);
}

site-LeavesTables : LeavesTables site (λ w. w.tables)
site-LeavesTables = record {
  get_keeps = λ k w. refl;
  incr_keeps = λ k w. refl;
  expire_keeps = λ k n w. refl;
  hash_keeps = λ p w. refl;
  verify_keeps = λ h p w. refl;
  uuid_keeps = λ w. refl;
  token_keeps = λ w. refl;
}

site_verifies :
    (password hash : Text) (v w : Site) (matches : Bool)
    → (site.hash password v).0 ≡ ok hash
    → (site.verify hash password w).0 ≡ ok matches
    → matches ≡ true
site_verifies password hash v w matches hashed checked =
    let same : password ≡ hash = ground arith in let self = text_eq_refl hash in ground arith

abbrev vacant : Site
vacant = record { tables = record { users = []; refresh_tokens = [] }; store = empty; made = 1 }

abbrev ann : Credentials
ann = record { email = codes "Ann@example.com"; password = codes "correct horse" }

abbrev guess : Credentials
guess = record ann { password = codes "wrong" }

abbrev ann_user : User
ann_user = record { id = codes "id1"; email = codes "ann@example.com" }

abbrev pair : Text → TokenPair
pair token = record { access_token = codes "ann@example.com"; refresh_token = token }

register-login_example :
    Welcome site
      (λ w. w.tables)
      site_pool-IsPool
      site-LeavesTables
      site_verifies
      ann
      ann_user
      (logged_in ann_user (pair (codes "token4")))
unfolding register login insert_account create_tokens insert_token select_account update_failures
    decimal
register-login_example =
    register-login site (λ w. w.tables) site_pool-IsPool site-LeavesTables site_verifies ann
      (codes "c") vacant ann_user (pair (codes "token2"))
      (logged_in ann_user (pair (codes "token4"))) refl refl

abbrev account : Account
account = record {
  id = codes "u";
  email = codes "ann@example.com";
  password_hash = codes "correct horse";
  locked_until = none;
  failed_login_count = 3;
}

abbrev settled : Site
settled = record vacant {
  tables = record {
    users = account ∷ [];
    refresh_tokens =
        record {
          id = codes "1";
          user_id = codes "u";
          token_hash = codes "old";
          is_revoked = false;
          expires_at = 5000;
        }
        ∷ [];
  };
}

login-IsVerified_example :
    (a : Account) × (find_email (codes "ann@example.com") settled.tables.users ≡ some a)
    × (user_of account ≡ user_of a)
    × IsVerified site (λ w. w.tables) site_pool-IsPool site-LeavesTables a (codes "correct horse")
unfolding login create_tokens insert_token select_account update_failures decimal
login-IsVerified_example =
    login-IsVerified site (λ w. w.tables) site_pool-IsPool site-LeavesTables (codes "c") ann settled
      (user_of account) (pair (codes "token1")) refl

fail-fail_example :
    (l : Option ℕ) × (find_email
        (codes "ann@example.com")
        (fail site (codes "d") account (fail site (codes "c") account settled).1).1.tables.users
      ≡ some (with_failure account l))
unfolding update_failures count_ip_failure note_failure decimal
fail-fail_example =
    fail-fail site (λ w. w.tables) site_pool-IsPool site-LeavesTables (codes "ann@example.com")
      (codes "c") (codes "d") account settled invalid_credentials invalid_credentials refl refl refl

logout-refresh_example :
    (refresh site.auth (codes "old") (logout site (codes "old") settled).1).0
    ≢ ok (refreshed (record { access_token = codes "a"; refresh_token = codes "r" }))
unfolding logout revoke_hash
logout-refresh_example =
    logout-refresh site (λ w. w.tables) site_pool-IsPool (codes "old") settled
      (record { access_token = codes "a"; refresh_token = codes "r" }) refl

-- Tokens that are an email, of the user `u`.
abbrev accepted : Text → Result Claims
accepted token = ok (record { sub = some (codes "u"); email = some token })

bearer_accepted :
    authenticate accepted (some (codes "Bearer ann@example.com"))
    ≡ authenticated (record { id = codes "u"; email = codes "ann@example.com" })
unfolding authenticate
bearer_accepted = refl

bearer_missing : authenticate accepted (some (codes "Basic ann")) ≡ missing_bearer_token
unfolding authenticate
bearer_missing = refl
