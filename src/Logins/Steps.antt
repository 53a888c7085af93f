-- ===== src/Logins/Steps.antt =====
-- The logins of a server (`api_auth_login`), interleaved in any order: an attempt is reserved, its
-- password is checked, and it is released.
use wudup.Prelude.{◌≡◌, ℕ, true, false, List, [], ◌∷◌, ◌++◌}
use wudup.Logins.{
  Key, LoginState, reserve_login_attempt, release_login_attempt, record_login_failure,
  clear_login_throttle,
}

pub record Server : Type 0 where
  pub login : LoginState
  -- The attempts whose password is being checked, and those before their release.
  pub checking : List Key
  pub closing : List Key

pub data Step (s : Server) : Server → Type 0 where
  reserved :
      (key : Key) (now : ℕ)
      → (reserve_login_attempt key now s.login).0 ≡ true
      → Step s (record s {
        login = (reserve_login_attempt key now s.login).1;
        checking = key ∷ s.checking;
      })
  refused :
      (key : Key) (now : ℕ)
      → (reserve_login_attempt key now s.login).0 ≡ false
      → Step s (record s { login = (reserve_login_attempt key now s.login).1 })
  failed :
      (key : Key) (now : ℕ) (before after : List Key)
      → s.checking ≡ before ++ key ∷ after
      → Step s (record {
        login = record_login_failure key now s.login;
        checking = before ++ after;
        closing = key ∷ s.closing;
      })
  succeeded :
      (key : Key) (before after : List Key)
      → s.checking ≡ before ++ key ∷ after
      → Step s (record {
        login = clear_login_throttle key s.login;
        checking = before ++ after;
        closing = key ∷ s.closing;
      })
  -- Any other error: the attempt counts neither as a failure nor as a success.
  raised :
      (key : Key) (before after : List Key)
      → s.checking ≡ before ++ key ∷ after
      → Step s (record { login = s.login; checking = before ++ after; closing = key ∷ s.closing })
  released :
      (key : Key) (before after : List Key)
      → s.closing ≡ before ++ key ∷ after
      → Step s (record {
        login = release_login_attempt key s.login;
        checking = s.checking;
        closing = before ++ after;
      })

abbrev pub started : Server
started = record {
  login = record { throttle = []; client_throttle = []; pending = []; client_pending = [] };
  checking = [];
  closing = [];
}

pub data Reach : Server → Type 0 where
  start : Reach started
  later : {s t : Server} → Reach s → Step s t → Reach t
